-- ===== src/Tests/Uuids.antt =====
-- A stand-in for `uuid.New` that draws a text of its own each time.
use Prim.Native.Nat.{ℕ, zero, suc}
use Prim.Native.String.{String, [], ◌∷◌}
use mathlib.Core.Path.{◌≡◌, refl, sym, ap, ◌∙◌}

abbrev pub tally : ℕ → String
tally zero = []
tally (suc n) = "u" ∷ tally n

abbrev size : String → ℕ
size [] = 0
size (c ∷ s) = suc (size s)

size-tally : (n : ℕ) → size (tally n) ≡ n
size-tally zero = refl
size-tally (suc n) = ap suc (size-tally n)

pub tally-injective : (m k : ℕ) → tally m ≡ tally k → m ≡ k
tally-injective m k e = sym (size-tally m) ∙ ap size e ∙ size-tally k
