-- ===== src/Window/Contract.antt =====
-- What a bitmap of 1024 positions offers to a replay window. Position d stands for the sequence
-- number d below the highest one.
use ipvn.Base.{ℕ, ◌-◌, ◌<◌, ◌≡◌, Bool, true, false, ltb, ◌==◌, if◌then◌else◌}

abbrev pub window_size : ℕ
window_size = 1024

pub record Bitmap (B : Type 0) : Type 1 where
  pub IsWhole : B → Type 0
  pub test : B → ℕ → Bool
  pub cleared : B
  pub shift : B → ℕ → B
  pub mark : B → ℕ → B
  pub cleared-IsWhole : IsWhole cleared
  pub shift-IsWhole : (b : B) (n : ℕ) → IsWhole b → IsWhole (shift b n)
  pub mark-IsWhole : (b : B) (k : ℕ) → IsWhole b → IsWhole (mark b k)
  pub test-cleared : (d : ℕ) → test cleared d ≡ false
  pub test-shift :
      (b : B) (n d : ℕ)
      → IsWhole b
      → n < window_size
      → d < window_size
      → test (shift b n) d ≡ (if ltb d n then false else test b (d - n))
  pub test-mark :
      (b : B) (k d : ℕ)
      → IsWhole b
      → k < window_size
      → d < window_size
      → test (mark b k) d ≡ (if d == k then true else test b d)
