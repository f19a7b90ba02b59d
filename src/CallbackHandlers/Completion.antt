-- ===== src/CallbackHandlers/Completion.antt =====
-- The choice of `CallbackHandlers::readCallback` against a description of which blocks are missing.
use rosaic.Prelude.{
  ℕ, suc, ◌+◌, ◌≡◌, inl, inr, refl, arith, Bool, true, false, ◌&&◌, ◌||◌, ◌==◌, Bool-cases, List,
  [], ◌∷◌, not, length, ap, ◌∙◌,
}
use rosaic.MessageKey.{Key, key_eq, key_eq_refl, block}
use rosaic.CallbackHandlers.Handle.{is_one_of}
use rosaic.CallbackHandlers.State.{Settings, Handlers}
use rosaic.CallbackHandlers.Triggers.{
  choose_triggers, gpsfix_blocks, gpsfix_vec, navsatfix_blocks, navsatfix_vec, pose_blocks,
  pose_vec, diagnostics_blocks, diagnostics_vec, all_true, position, others_arrived, choose,
}

-- Has every block but `n` arrived?
unfoldable pub arrived_but : ℕ → List ℕ → List Bool → Bool
arrived_but n [] flags = true
arrived_but n (b ∷ bs) [] = true
arrived_but n (b ∷ bs) (f ∷ fs) = (n == b || f) && arrived_but n bs fs

-- Is `n` among the blocks?
unfoldable pub has_block : ℕ → List ℕ → Bool
has_block n [] = false
has_block n (b ∷ bs) = n == b || has_block n bs

-- The tables list each block once.
unfoldable pub is_distinct : List ℕ → Bool
is_distinct [] = true
is_distinct (b ∷ bs) = not (has_block b bs) && is_distinct bs

arrived_but-absent :
    (n : ℕ) (bs : List ℕ) (fs : List Bool)
    → has_block n bs ≡ false
    → length fs ≡ length bs
    → all_true fs ≡ arrived_but n bs fs
unfolding arrived_but has_block all_true
arrived_but-absent n [] [] absent e = refl
arrived_but-absent n [] (f ∷ fs) absent e = absurd (omega (arith, e))
arrived_but-absent n (b ∷ bs) [] absent e = absurd (omega (arith, e))
arrived_but-absent n (b ∷ bs) (f ∷ fs) absent e =
    let absent' : has_block n bs ≡ false = ground arith in
    let rest = arrived_but-absent n bs fs absent' (omega (arith, e)) in ground (arith, rest)

position-shift :
    (n : ℕ) (bs : List ℕ) (i : ℕ)
    → has_block n bs ≡ true
    → position (block n) bs i ≡ i + position (block n) bs 0
unfolding position has_block key_eq
position-shift n [] i here = absurd (ground arith)
position-shift n (b ∷ bs) i here = elim (Bool-cases (n == b)) [
  | inl e ↦ rw e (omega arith)
  | inr ne ↦
      (let later : has_block n bs ≡ true = ground arith in
        rw ne (omega (arith, position-shift n bs (suc i) later, position-shift n bs 1 later)))
]

-- Erasing the entry at the position of a block, as `readCallback` does, leaves the flags of all the
-- other blocks: the test asks that each of those has arrived, and ignores the flag of the block
-- itself. This holds in a table that lists its blocks once each, with a flag for each.
pub others_arrived-arrived_but :
    (n : ℕ) (bs : List ℕ) (fs : List Bool)
    → is_distinct bs ≡ true
    → has_block n bs ≡ true
    → length fs ≡ length bs
    → others_arrived (block n) bs fs ≡ arrived_but n bs fs
unfolding others_arrived has_block is_distinct arrived_but
others_arrived-arrived_but n [] fs distinct here e = absurd (ground arith)
others_arrived-arrived_but n (b ∷ bs) [] distinct here e = absurd (omega (arith, e))
others_arrived-arrived_but n (b ∷ bs) (f ∷ fs) distinct here e = elim (Bool-cases (n == b)) [
  | inl eq ↦
      (let same : n ≡ b = ground arith in
        let absent : has_block n bs ≡ false = rw same (ground arith) in
        ground (arith, arrived_but-absent n bs fs absent (omega (arith, e))))
  | inr ne ↦
      (let later : has_block n bs ≡ true = ground arith in
        let tail : is_distinct bs ≡ true = ground arith in
        let rest = others_arrived-arrived_but n bs fs tail later (omega (arith, e)) in
        ground (arith, ne, position-shift n bs 1 later, rest))
]

-- When the `do_` string of a message names the incoming block: the block completes the message, or
-- the string named it already.
pub choose_fires :
    (publish : Bool) (n : ℕ) (bs : List ℕ) (fs : List Bool) (old : Key)
    → key_eq (block n) (choose publish (block n) bs fs old) ≡ (
        publish && is_one_of (block n) bs && others_arrived (block n) bs fs || key_eq (block n) old)
unfolding choose
choose_fires publish n bs fs old = ground (arith, key_eq_refl (block n))

is_one_of-has_block : (n : ℕ) (bs : List ℕ) → is_one_of (block n) bs ≡ has_block n bs
unfolding is_one_of has_block key_eq
is_one_of-has_block n [] = refl
is_one_of-has_block n (b ∷ bs) = ap (λ t. n == b || t) (is_one_of-has_block n bs)

-- A choice in a table that lists its blocks once each, with a flag for each.
choose-arrived_but :
    (publish : Bool) (n : ℕ) (bs : List ℕ) (fs : List Bool) (old : Key)
    → is_distinct bs ≡ true
    → length fs ≡ length bs
    → key_eq (block n) (choose publish (block n) bs fs old)
      ≡ (publish && has_block n bs && arrived_but n bs fs || key_eq (block n) old)
choose-arrived_but publish n bs fs old distinct e = elim (Bool-cases (has_block n bs)) [
  | inl here ↦
      choose_fires publish n bs fs old
      ∙ rw (is_one_of-has_block n bs, others_arrived-arrived_but n bs fs distinct here e) refl
  | inr absent ↦ choose_fires publish n bs fs old ∙ ground (arith, is_one_of-has_block n bs, absent)
]

-- An incoming block is named for GPSFix, NavSatFix, the pose or the diagnostics exactly if the
-- message is asked for, is made of that block, and all its other blocks have arrived, or if the block
-- was named already.
pub choose_triggers_names :
    (s : Settings) (n : ℕ) (h : Handlers)
    → let a = h.node.arrived in
      let h' = choose_triggers s (block n) h in
      (key_eq (block n) h'.do_gpsfix ≡ (
        s.publish_gpsfix && has_block n gpsfix_blocks && arrived_but n gpsfix_blocks (gpsfix_vec a)
        || key_eq (block n) h.do_gpsfix))
      × (key_eq (block n) h'.do_navsatfix ≡ (
          s.publish_navsatfix
            && has_block n navsatfix_blocks
            && arrived_but n navsatfix_blocks (navsatfix_vec a)
          || key_eq (block n) h.do_navsatfix))
      × (key_eq (block n) h'.do_pose ≡ (
          s.publish_pose && has_block n pose_blocks && arrived_but n pose_blocks (pose_vec a)
          || key_eq (block n) h.do_pose))
      × (key_eq (block n) h'.do_diagnostics ≡ (
          s.publish_diagnostics
            && has_block n diagnostics_blocks
            && arrived_but n diagnostics_blocks (diagnostics_vec a)
          || key_eq (block n) h.do_diagnostics))
unfolding choose_triggers is_distinct has_block
choose_triggers_names s n h =
    let a = h.node.arrived in
    (
      choose-arrived_but s.publish_gpsfix n gpsfix_blocks (gpsfix_vec a) h.do_gpsfix refl refl,
      choose-arrived_but s.publish_navsatfix n navsatfix_blocks (navsatfix_vec a) h.do_navsatfix
          refl refl,
      choose-arrived_but s.publish_pose n pose_blocks (pose_vec a) h.do_pose refl refl,
      choose-arrived_but s.publish_diagnostics n diagnostics_blocks (diagnostics_vec a)
          h.do_diagnostics refl refl,
    )
