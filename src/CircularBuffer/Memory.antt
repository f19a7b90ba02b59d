-- ===== src/CircularBuffer/Memory.antt =====
-- `memcpy` into a piece of memory, and memory described index by index.
use rosaic.Prelude.{
  ℕ, zero, suc, ◌+◌, ◌-◌, ◌≤◌, ◌<◌, ◌≡◌, refl, ◌∙◌, ap, arith, List, [], ◌∷◌, ◌++◌, length, get_or,
  take, drop, length-append, length-take, length-drop, if◌then◌else◌, ltb, leb, ◌&&◌,
}
use mathlib.Core.Path.{ap₂}

-- The source overwrites the memory from an offset on. It fits in every call that is made.
unfoldable pub memcpy : List ℕ → ℕ → List ℕ → List ℕ
memcpy mem at source = take at mem ++ (source ++ drop (at + length source) mem)

pub length-memcpy :
    (mem : List ℕ) (at : ℕ) (source : List ℕ)
    → at + length source ≤ length mem
    → length (memcpy mem at source) ≡ length mem
unfolding memcpy
length-memcpy mem at source fits = omega (
  arith,
  length-append (take at mem) (source ++ drop (at + length source) mem),
  length-append source (drop (at + length source) mem),
  length-take at mem,
  length-drop (at + length source) mem,
)

get_or-append :
    (xs ys : List ℕ) (i d : ℕ)
    → get_or (xs ++ ys) i d
      ≡ (if ltb i (length xs) then get_or xs i d else get_or ys (i - length xs) d)
get_or-append [] ys i d = ground arith
get_or-append (x ∷ xs) ys zero d = ground arith
get_or-append (x ∷ xs) ys (suc i) d = ground (arith, get_or-append xs ys i d)

pub get_or-take : (n : ℕ) (xs : List ℕ) (i d : ℕ) → i < n → get_or (take n xs) i d ≡ get_or xs i d
get_or-take zero xs i d h = absurd (omega arith)
get_or-take (suc n) [] i d h = refl
get_or-take (suc n) (x ∷ xs) zero d h = refl
get_or-take (suc n) (x ∷ xs) (suc i) d h = get_or-take n xs i d (omega arith)

pub get_or-drop : (n : ℕ) (xs : List ℕ) (i d : ℕ) → get_or (drop n xs) i d ≡ get_or xs (n + i) d
get_or-drop zero xs i d = ap (λ k. get_or xs k d) (omega arith)
get_or-drop (suc n) [] i d = refl
get_or-drop (suc n) (x ∷ xs) i d =
    get_or-drop n xs i d ∙ let e : suc n + i ≡ suc (n + i) = omega arith in rw e refl

-- The byte at an index after a copy.
pub get_or-memcpy :
    (mem : List ℕ) (at : ℕ) (source : List ℕ) (i : ℕ)
    → at + length source ≤ length mem
    → get_or (memcpy mem at source) i 0 ≡ (
        if leb at i && ltb i (at + length source) then get_or source (i - at) 0 else get_or mem i 0)
unfolding memcpy
get_or-memcpy mem at source i fits = ground (
  arith,
  get_or-append (take at mem) (source ++ drop (at + length source) mem) i 0,
  get_or-append source (drop (at + length source) mem) (i - at) 0,
  length-take at mem,
  get_or-take at mem i 0,
  get_or-drop (at + length source) mem (i - at - length source) 0,
)

-- The list of the first `n` values of a function.
abbrev pub tabulate : ℕ → (ℕ → ℕ) → List ℕ
tabulate zero f = []
tabulate (suc n) f = f 0 ∷ tabulate n (λ i. f (suc i))

pub length-tabulate : (n : ℕ) (f : ℕ → ℕ) → length (tabulate n f) ≡ n
length-tabulate zero f = refl
length-tabulate (suc n) f = ap suc (length-tabulate n (λ i. f (suc i)))

pub tabulate_ext :
    (n : ℕ) (f g : ℕ → ℕ) → ((i : ℕ) → i < n → f i ≡ g i) → tabulate n f ≡ tabulate n g
tabulate_ext zero f g h = refl
tabulate_ext (suc n) f g h =
    ap₂ ◌∷◌ (h 0 (omega arith))
      (tabulate_ext n (λ i. f (suc i)) (λ i. g (suc i)) (λ i lt. h (suc i) (omega arith)))

pub tabulate_cong :
    (m n : ℕ) (f g : ℕ → ℕ) → m ≡ n → ((i : ℕ) → i < n → f i ≡ g i) → tabulate m f ≡ tabulate n g
tabulate_cong m n f g e h = ap (λ k. tabulate k f) e ∙ tabulate_ext n f g h

pub tabulate-add :
    (m n : ℕ) (f : ℕ → ℕ) → tabulate (m + n) f ≡ tabulate m f ++ tabulate n (λ i. f (m + i))
tabulate-add zero n f = tabulate_cong (0 + n) n f _ (omega arith) (λ i h. ap f (omega arith))
tabulate-add (suc m) n f =
    tabulate_cong (suc m + n) (suc (m + n)) f f (omega arith) (λ i h. refl)
    ∙ ap (λ t. f 0 ∷ t)
        (tabulate-add m n (λ i. f (suc i))
          ∙ ap (λ t. tabulate m (λ i. f (suc i)) ++ t)
              (tabulate_ext n _ _ (λ i h. ap f (omega arith))))

take-tabulate_get :
    (mem : List ℕ) (n : ℕ) → n ≤ length mem → take n mem ≡ tabulate n (λ i. get_or mem i 0)
take-tabulate_get mem zero fits = refl
take-tabulate_get [] (suc n) fits = absurd (omega arith)
take-tabulate_get (x ∷ mem) (suc n) fits = ap (λ t. x ∷ t) (take-tabulate_get mem n (omega arith))

-- A stretch of memory, read byte by byte.
pub take-drop-tabulate :
    (mem : List ℕ) (at n : ℕ)
    → at + n ≤ length mem
    → take n (drop at mem) ≡ tabulate n (λ i. get_or mem (at + i) 0)
take-drop-tabulate mem at n fits =
    take-tabulate_get (drop at mem) n (omega (arith, length-drop at mem))
    ∙ tabulate_ext n _ _ (λ i h. get_or-drop at mem i 0)

pub take-tabulate : (m n : ℕ) (f : ℕ → ℕ) → m ≤ n → take m (tabulate n f) ≡ tabulate m f
take-tabulate zero n f h = refl
take-tabulate (suc m) zero f h = absurd (omega arith)
take-tabulate (suc m) (suc n) f h =
    ap (λ t. f 0 ∷ t) (take-tabulate m n (λ i. f (suc i)) (omega arith))

pub drop-tabulate :
    (m n : ℕ) (f : ℕ → ℕ) → m ≤ n → drop m (tabulate n f) ≡ tabulate (n - m) (λ i. f (m + i))
drop-tabulate zero n f h = tabulate_cong n (n - 0) f _ (omega arith) (λ i lt. ap f (omega arith))
drop-tabulate (suc m) zero f h = absurd (omega arith)
drop-tabulate (suc m) (suc n) f h =
    drop-tabulate m n (λ i. f (suc i)) (omega arith)
    ∙ tabulate_cong (n - m) (suc n - suc m) _ _ (omega arith) (λ i lt. ap f (omega arith))

module _ (mem source : List ℕ) where
  -- One copy of the first `n` bytes of the source.
  pub get_or-memcpy-take :
      (at n i : ℕ)
      → at + n ≤ length mem
      → n ≤ length source
      → get_or (memcpy mem at (take n source)) i 0
        ≡ (if leb at i && ltb i (at + n) then get_or source (i - at) 0 else get_or mem i 0)
  get_or-memcpy-take at n i fits given = ground (
    arith,
    length-take n source,
    get_or-memcpy mem at (take n source) i,
    get_or-take n source (i - at) 0,
  )

  pub length-memcpy-take :
      (at n : ℕ)
      → at + n ≤ length mem
      → n ≤ length source
      → length (memcpy mem at (take n source)) ≡ length mem
  length-memcpy-take at n fits given =
      length-memcpy mem at (take n source) (omega (arith, length-take n source))

-- A copy that goes round the end: `m` bytes up to the end of the memory, `n` more at its start.
pub get_or-memcpy-around :
    (mem source : List ℕ) (at m n i : ℕ)
    → at + m ≡ length mem
    → n ≤ at
    → m + n ≤ length source
    → i < length mem
    → get_or (memcpy (memcpy mem at (take m source)) 0 (take n (drop m source))) i 0 ≡ (
        if ltb i n
        then get_or source (m + i) 0
        else if leb at i
        then get_or source (i - at) 0
        else get_or mem i 0)
get_or-memcpy-around mem source at m n i ends below given inside = ground (
  arith,
  length-drop m source,
  length-memcpy-take mem source at m,
  get_or-memcpy-take (memcpy mem at (take m source)) (drop m source) 0 n i,
  get_or-memcpy-take mem source at m i,
  get_or-drop m source i 0,
)
