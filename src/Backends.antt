-- ===== src/Backends.antt =====
-- http/backend_list.{h,cpp}: the backends of a rule, which requests go to in turn. A backend is given by its
-- index; which of them `socket_wrapper::connect` reaches, with which descriptor, is a parameter, as is the time.
-- The names of the hosts are left out.
pub mod Turns
mod Examples
use gweb_plusplus.Base.{
  ℕ, zero, suc, ◌+◌, ◌%◌, Bool, true, false, ◌||◌, List, [], ◌∷◌, ◌++◌, Option, none, some, leb,
  ◌==◌, if◌then◌else◌, length, get_elem?, Round, more, stop, loop,
}

pub record Backend : Type 0 where
  pub available : Bool
  pub downtime : ℕ

-- `connections` has the backend of a descriptor, the last first.
pub record BackendList : Type 0 where
  pub backends : List Backend
  pub current : ℕ
  pub connections : List (ℕ × ℕ)
  pub retry_interval : ℕ

new_backend_list : BackendList
new_backend_list = record { backends = []; current = 0; connections = []; retry_interval = 30 }

-- Behind what can fail. `downtime` is not set, nor looked at.
add_backend : BackendList → BackendList
add_backend l = record l {
  backends = l.backends ++ (record { available = true; downtime = 0 } ∷ []);
}

module _ {A : Type 0} where
  abbrev pub set_at : ℕ → A → List A → List A
  set_at i y [] = []
  set_at zero y (x ∷ xs) = y ∷ xs
  set_at (suc i) y (x ∷ xs) = x ∷ set_at i y xs

module _ (now : ℕ) where
  abbrev pub down : Backend
  down = record { available = false; downtime = now }

  -- `fd` is a descriptor of `connect`; a descriptor without a backend does not happen.
  connection_failed : BackendList → ℕ → BackendList
  connection_failed l fd = fail l.connections
    where
      fail : List (ℕ × ℕ) → BackendList
      fail [] = l
      fail ((sd, i) ∷ rest) =
          let others = fail rest in
          if sd == fd then record l { backends = set_at i down l.backends } else others

  abbrev pub is_due : ℕ → Backend → Bool
  is_due interval b = b.available || leb (b.downtime + interval) now

  module _ (socket : ℕ → Option ℕ) (first : ℕ) where
    -- `while (_M_current != first)`
    pub next_turn : BackendList → Round BackendList (BackendList × Option (ℕ × ℕ))
    next_turn l = if l.current == first then stop (l, none) else more l

    -- `i` is the backend, and `l` the list with the next as its current one.
    pub try_backend : BackendList → ℕ → Option ℕ → Round BackendList (BackendList × Option (ℕ × ℕ))
    unfolding next_turn
    try_backend l i (some sd) =
        stop (record l { connections = (sd, i) ∷ l.connections }, some (sd, i))
    try_backend l i none = next_turn (record l { backends = set_at i down l.backends })

    -- With the backend at the current index.
    pub turn_at : BackendList → Option Backend → Round BackendList (BackendList × Option (ℕ × ℕ))
    unfolding try_backend
    turn_at l none = stop (l, none)
    turn_at l (some b) =
        let next : BackendList = record l { current = (l.current + 1) % length l.backends } in
        if is_due l.retry_interval b
        then try_backend next l.current (socket l.current)
        else next_turn next

    pub turn : BackendList → Round BackendList (BackendList × Option (ℕ × ℕ))
    unfolding turn_at
    turn l = turn_at l (get_elem? l.backends l.current)

  -- The list, and the descriptor with the backend it is of, or `none` for -1. There is a backend at the
  -- current index wherever there is one at all. A call makes a turn with each backend at most.
  unfoldable pub connect : (ℕ → Option ℕ) → BackendList → Option (BackendList × Option (ℕ × ℕ))
  unfolding turn loop
  connect socket l = loop (turn socket l.current) (suc (length l.backends)) l
