-- ===== src/Buffer/Examples.antt =====
-- The buffer on concrete strings, and its theorems at one of them.
use gweb_plusplus.Base.{arith, ℕ, Bool, true, false, [], ◌∷◌, ◌≡◌, refl, Bytes}
use gweb_plusplus.Buffer.{Buffer, append, allocate}
use gweb_plusplus.Buffer.Appends.{IsSound, IsAppended, append-IsAppended}

abbrev enough_memory : ℕ → Bool
enough_memory n = true

abbrev no_memory : ℕ → Bool
no_memory n = false

abbrev two_bytes : Bytes
two_bytes = b'o' ∷ b'k' ∷ []

abbrev of_four : Buffer
of_four = record { data' = []; size = 0; used = 0; increment = 4 }

of_four-IsSound : IsSound of_four
of_four-IsSound = record { written = omega arith; fits = omega arith; grows = omega arith }

two_bytes_run :
    append enough_memory of_four two_bytes
    ≡ (record { data' = two_bytes; size = 4; used = 2; increment = 4 }, true)
unfolding append allocate
two_bytes_run = refl

no_memory_run : append no_memory of_four two_bytes ≡ (of_four, false)
unfolding append allocate
no_memory_run = refl

append-IsAppended_example :
    IsAppended enough_memory of_four two_bytes (append enough_memory of_four two_bytes)
append-IsAppended_example =
    append-IsAppended enough_memory of_four two_bytes of_four-IsSound (omega arith)
