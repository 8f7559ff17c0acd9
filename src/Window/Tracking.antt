-- ===== src/Window/Tracking.antt =====
-- A highest number and a bitmap track a history: each position tells whether its number was
-- accepted. The three ways in which a window changes keep that.
use ipvn.Base.{ℕ, ◌-◌, ◌≤◌, ◌<◌, ◌≡◌, refl, false, List, [], ◌∷◌, arith, ltb, if◌then◌else◌}
use ipvn.Window.Contract.{Bitmap, window_size}
use ipvn.Window.History.{member, highest, member-above}

module _ {B : Type 0} (o : Bitmap B) where
  open o use {
    IsWhole, test, cleared, shift, mark, cleared-IsWhole, shift-IsWhole, mark-IsWhole, test-cleared,
    test-shift, test-mark,
  }

  pub record Tracks (top : ℕ) (b : B) (past : List ℕ) : Type 0 where
    pub whole : IsWhole b
    pub topmost : top ≡ highest past
    pub positions :
        (d : ℕ) → d < window_size → test b d ≡ (if ltb top d then false else member (top - d) past)

  -- A number less than a window above the highest: the window slides.
  pub Tracks-shift :
      (top s : ℕ) (b : B) (past : List ℕ)
      → Tracks top b past
      → top < s
      → s - top < window_size
      → Tracks s (mark (shift b (s - top)) 0) (s ∷ past)
  Tracks-shift top s b past t above near = record {
    whole = mark-IsWhole _ 0 (shift-IsWhole b (s - top) t.whole);
    topmost = ground (arith, t.topmost);
    positions = λ d hd. ground (
      arith,
      t.topmost,
      test-mark (shift b (s - top)) 0 d (shift-IsWhole b (s - top) t.whole) (omega arith) hd,
      test-shift b (s - top) d t.whole near hd,
      t.positions (d - (s - top)),
      member-above (s - d) past,
    );
  }

  -- A number further above: the window starts anew.
  pub Tracks-cleared :
      (top s : ℕ) (b : B) (past : List ℕ)
      → Tracks top b past
      → top < s
      → window_size ≤ s - top
      → Tracks s (mark cleared 0) (s ∷ past)
  Tracks-cleared top s b past t above far = record {
    whole = mark-IsWhole cleared 0 cleared-IsWhole;
    topmost = ground (arith, t.topmost);
    positions = λ d hd. ground (
      arith,
      t.topmost,
      test-mark cleared 0 d cleared-IsWhole (omega arith) hd,
      test-cleared d,
      member-above (s - d) past,
    );
  }

  -- A late number inside the window: its position is marked.
  pub Tracks-mark :
      (top s : ℕ) (b : B) (past : List ℕ)
      → Tracks top b past
      → s ≤ top
      → top - s < window_size
      → Tracks top (mark b (top - s)) (s ∷ past)
  Tracks-mark top s b past t below near = record {
    whole = mark-IsWhole b (top - s) t.whole;
    topmost = ground (arith, t.topmost);
    positions = λ d hd. ground (arith, test-mark b (top - s) d t.whole near hd, t.positions d hd);
  }

  -- The position of a late number tells whether it was accepted.
  pub test-late :
      (top s : ℕ) (b : B) (past : List ℕ)
      → Tracks top b past
      → s ≤ top
      → top - s < window_size
      → test b (top - s) ≡ member s past
  test-late top s b past t below near =
      let back : top - (top - s) ≡ s = omega arith in
      ground (arith, t.positions (top - s) near, back)

  -- An empty bitmap at 0 tracks the empty history, and a marked one the first number.
  pub Tracks-first : (s : ℕ) → Tracks s (mark cleared 0) (s ∷ [])
  Tracks-first s = record {
    whole = mark-IsWhole cleared 0 cleared-IsWhole;
    topmost = ground arith;
    positions = λ d hd.
        ground (arith, test-mark cleared 0 d cleared-IsWhole (omega arith) hd, test-cleared d);
  }

  pub Tracks-empty : Tracks 0 cleared []
  Tracks-empty = record {
    whole = cleared-IsWhole;
    topmost = refl;
    positions = λ d hd. ground (arith, test-cleared d);
  }
