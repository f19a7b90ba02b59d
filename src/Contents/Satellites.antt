-- ===== src/Contents/Satellites.antt =====
-- The satellites in a GPSFix: no read outside `cno_tracked`, and each ratio belongs to its satellite.
use rosaic.Prelude.{
  ℕ, zero, suc, ◌+◌, ◌≡◌, refl, ap, ◌∙◌, arith, false, Bool-cases, inl, inr, ◌==◌, if◌then◌else◌,
  List, [], ◌∷◌, length, get_elem?, Option, none, some,
}
use rosaic.Contents.{
  Memory, n_of, data_start, Tracked, track_channels, tracked, position_in_sync, Visible,
  push_satellite, visible, reorder, Status, status_of, satellite_fields, ◌>>=◌,
}

lengths_track_channels :
    (byte : Memory) (rounds index : ℕ)
    → length (track_channels byte rounds index).svid_in_sync
      ≡ length (track_channels byte rounds index).cno_tracked
unfolding track_channels
lengths_track_channels byte zero index = refl
lengths_track_channels byte (suc rounds) index =
    ap (λ t. suc t) (lengths_track_channels byte rounds _)

-- A satellite that is found stands where it was found.
position_in_sync-get_elem? :
    (svid : ℕ) (in_sync : List ℕ) (j k : ℕ)
    → position_in_sync svid in_sync j ≡ some k
    → (i : ℕ) × (k ≡ j + i) × (get_elem? in_sync i ≡ some svid)
unfolding position_in_sync
position_in_sync-get_elem? svid [] j k found = absurd (ground arith)
position_in_sync-get_elem? svid (s ∷ in_sync) j k found = elim (Bool-cases (s == svid)) [
  | inl same ↦ (0, ground arith, ground arith)
  | inr other ↦
      let later : position_in_sync svid in_sync (j + 1) ≡ some k = ground arith in
      let (i, at, is) = position_in_sync-get_elem? svid in_sync (j + 1) k later in
      (suc i, omega arith, is)
]

-- A position in one of two vectors of the same length is one in the other.
within :
    (xs : List ℕ) (ys : List ℕ) (i x : ℕ)
    → length xs ≡ length ys
    → get_elem? xs i ≡ some x
    → (y : ℕ) × (get_elem? ys i ≡ some y)
within [] ys i x same found = absurd (ground arith)
within (a ∷ xs) [] i x same found = absurd (omega (arith, same))
within (a ∷ xs) (b ∷ ys) zero x same found = (b, refl)
within (a ∷ xs) (b ∷ ys) (suc i) x same found = within xs ys i x (omega (arith, same)) found

-- Positions of satellites in sync, and their numbers.
data Ordered (in_sync : List ℕ) : List ℕ → List ℕ → Type 0 where
  no_more : Ordered in_sync [] []
  more :
      (j svid : ℕ) (ordering prn : List ℕ)
      → get_elem? in_sync j ≡ some svid
      → Ordered in_sync ordering prn
      → Ordered in_sync (j ∷ ordering) (svid ∷ prn)

record IsFilled (in_sync : List ℕ) (v : Visible) : Type 0 where
  ordered : Ordered in_sync v.ordering v.svid_in_sync_2
  heights : length v.elevation_tracked ≡ length v.svid_in_sync_2
  azimuths : length v.azimuth_tracked ≡ length v.svid_in_sync_2

push_satellite-IsFilled :
    (byte : Memory) (index : ℕ) (in_sync : List ℕ) (o : Option ℕ) (v : Visible)
    → position_in_sync (byte index) in_sync 0 ≡ o
    → IsFilled in_sync v
    → IsFilled in_sync (push_satellite byte index o v)
unfolding push_satellite
push_satellite-IsFilled byte index in_sync none v e f = f
push_satellite-IsFilled byte index in_sync (some j) v e f =
    let (i, at, is) = position_in_sync-get_elem? (byte index) in_sync 0 j e in
    let at_i : j ≡ i = omega (arith, at) in
    let here : get_elem? in_sync j ≡ some (byte index) = rw at_i is in
    record {
      ordered = more j (byte index) v.ordering v.svid_in_sync_2 here f.ordered;
      heights = ap (λ t. suc t) f.heights;
      azimuths = ap (λ t. suc t) f.azimuths;
    }

visible-IsFilled :
    (byte : Memory) (in_sync : List ℕ) (rounds index : ℕ)
    → IsFilled in_sync (visible byte in_sync rounds index)
unfolding visible
visible-IsFilled byte in_sync zero index = record {
  ordered = no_more;
  heights = refl;
  azimuths = refl;
}
visible-IsFilled byte in_sync (suc rounds) index =
    let f =
      push_satellite-IsFilled byte index in_sync (position_in_sync (byte index) in_sync 0) _ refl
        (visible-IsFilled byte in_sync rounds _) in
    record { ordered = f.ordered; heights = f.heights; azimuths = f.azimuths }

-- Each satellite has the ratio of a sub-block of MeasEpoch that is about it.
pub data Rated (t : Tracked) : List ℕ → List ℕ → Type 0 where
  no_more : Rated t [] []
  more :
      (j svid ratio : ℕ) (prn snr : List ℕ)
      → get_elem? t.svid_in_sync j ≡ some svid
      → get_elem? t.cno_tracked j ≡ some ratio
      → Rated t prn snr
      → Rated t (svid ∷ prn) (ratio ∷ snr)

reorder-Rated :
    (t : Tracked) (ordering prn : List ℕ)
    → length t.svid_in_sync ≡ length t.cno_tracked
    → Ordered t.svid_in_sync ordering prn
    → (snr : List ℕ) × (reorder t.cno_tracked ordering ≡ some snr) × Rated t prn snr
unfolding reorder
reorder-Rated t [] [] same Ordered.no_more = ([], refl, Rated.no_more)
reorder-Rated t (j ∷ ordering) (svid ∷ prn) same (Ordered.more _ _ _ _ here rest) =
    let (ratio, at) = within t.svid_in_sync t.cno_tracked j svid same here in
    let (snr, e, rated) = reorder-Rated t ordering prn same rest in
    (ratio ∷ snr, simp (at, e) refl, Rated.more j svid ratio prn snr here at rated)
reorder-Rated t [] (svid ∷ prn) same o = elim o [ ]
reorder-Rated t (j ∷ ordering) [] same o = elim o [ ]

-- Without satellites in ChannelStatus nothing is left out by not looking at `ordering`.
reorder_none :
    (byte : Memory) (t : Tracked) (rounds : ℕ)
    → let ordering = (visible byte t.svid_in_sync rounds data_start).ordering in
      (if rounds == 0 then some [] else reorder t.cno_tracked ordering)
      ≡ reorder t.cno_tracked ordering
unfolding visible reorder
reorder_none byte t zero = refl
reorder_none byte t (suc rounds) = let e : (suc rounds == 0) ≡ false = ground arith in simp e refl

-- What the fields about visible satellites are, next to the vectors filled from MeasEpoch.
pub record IsAligned (t : Tracked) (s : Status) : Type 0 where
  pub heights : length s.satellite_visible_z ≡ length s.satellite_visible_prn
  pub azimuths : length s.satellite_visible_azimuth ≡ length s.satellite_visible_prn
  pub rated : Rated t s.satellite_visible_prn s.satellite_visible_snr

-- Whatever the two blocks hold, no read is outside the ratios that were collected; the fields have a
-- height and an azimuth for each visible satellite, and the ratio of a sub-block of MeasEpoch about it.
pub satellite_fields-IsAligned :
    (measepoch channelstatus : Memory)
    → (s : Status) × (satellite_fields measepoch channelstatus ≡ some s)
      × IsAligned (tracked measepoch) s
unfolding satellite_fields
satellite_fields-IsAligned m c =
    let t = tracked m in
    let v = visible c t.svid_in_sync (n_of c) data_start in
    let f = visible-IsFilled c t.svid_in_sync (n_of c) data_start in
    let same = lengths_track_channels m (n_of m) data_start in
    let (snr, e, rated) = reorder-Rated t v.ordering v.svid_in_sync_2 same f.ordered in
    (
      status_of t v snr,
      ap (λ o. o >>= λ r. some (status_of t v r)) (reorder_none c t (n_of c) ∙ e),
      record { heights = f.heights; azimuths = f.azimuths; rated = rated },
    )
