-- ===== src/Backends/Examples.antt =====
-- Two backends, and the theorem on `connect` at them.
use gweb_plusplus.Backends.{new_backend_list, add_backend, connection_failed}
use gweb_plusplus.Base.{ℕ, zero, suc, true, false, [], ◌∷◌, Option, none, some, arith, ◌≡◌, refl}
use gweb_plusplus.Backends.{BackendList, connect}
use gweb_plusplus.Backends.Turns.{IsConnected, connect-IsConnected}

abbrev two_backends : BackendList
two_backends = record {
  backends =
      record { available = true; downtime = 0 } ∷ record { available = false; downtime = 70 } ∷ [];
  current = 0;
  connections = [];
  retry_interval = 30;
}

-- The second is reached, with descriptor 5.
abbrev second_only : ℕ → Option ℕ
second_only (suc zero) = some 5
second_only _ = none

-- The interval is over: the first is marked, and the second is reached.
connect_run :
    connect 100 second_only two_backends
    ≡ some (
      record {
        backends =
            record { available = false; downtime = 100 }
            ∷ record { available = false; downtime = 70 }
            ∷ [];
        current = 0;
        connections = (5, 1) ∷ [];
        retry_interval = 30;
      },
      some (5, 1),
    )
unfolding connect
connect_run = refl

connect-IsConnected_example :
    (r : BackendList × Option (ℕ × ℕ)) × (connect 100 second_only two_backends ≡ some r)
    × IsConnected 100 second_only two_backends r
connect-IsConnected_example = connect-IsConnected 100 second_only two_backends (omega arith)

-- A connection of the backend 1 has failed.
failed_run :
    (connection_failed 7
      (record (add_backend (add_backend new_backend_list)) { connections = (5, 1) ∷ [] })
      5).backends
    ≡ record { available = true; downtime = 0 } ∷ record { available = false; downtime = 7 } ∷ []
unfolding connection_failed add_backend new_backend_list
failed_run = refl
