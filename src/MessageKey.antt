-- ===== src/MessageKey.antt =====
-- Message keys: the strings by which ROS messages, SBF blocks and NMEA sentences are named. A
-- string of decimal digits stands as the number that it writes, any other as its bytes.
use rosaic.Prelude.{
  ℕ, ◌≡◌, refl, arith, Bool, true, false, ◌&&◌, if◌then◌else◌, ◌==◌, List, [], ◌∷◌,
}

pub data Key : Type 0 where
  block : ℕ → Key
  text : List ℕ → Key

-- The key is a block number.
abbrev pub IsBlock : Key → Type 0
IsBlock (block _) = Unit
IsBlock (text _) = ⊥

unfoldable pub list_eq : List ℕ → List ℕ → Bool
list_eq [] [] = true
list_eq [] (y ∷ ys) = false
list_eq (x ∷ xs) [] = false
list_eq (x ∷ xs) (y ∷ ys) = x == y && list_eq xs ys

pub list_eq→eq : (xs ys : List ℕ) → list_eq xs ys ≡ true → xs ≡ ys
unfolding list_eq
list_eq→eq [] [] h = refl
list_eq→eq [] (y ∷ ys) h = ground arith
list_eq→eq (x ∷ xs) [] h = ground arith
list_eq→eq (x ∷ xs) (y ∷ ys) h = ground (arith, list_eq→eq xs ys)

pub list_eq_refl : (xs : List ℕ) → list_eq xs xs ≡ true
unfolding list_eq
list_eq_refl [] = refl
list_eq_refl (x ∷ xs) = ground (arith, list_eq_refl xs)

unfoldable pub key_eq : Key → Key → Bool
key_eq (block m) (block n) = m == n
key_eq (block m) (text t) = false
key_eq (text s) (block n) = false
key_eq (text s) (text t) = list_eq s t

pub key_eq_refl : (k : Key) → key_eq k k ≡ true
unfolding key_eq
key_eq_refl (block n) = ground arith
key_eq_refl (text t) = list_eq_refl t

pub key_eq→eq : (j k : Key) → key_eq j k ≡ true → j ≡ k
unfolding key_eq
key_eq→eq (block m) (block n) h = ground arith
key_eq→eq (block m) (text t) h = ground arith
key_eq→eq (text s) (block n) h = ground arith
key_eq→eq (text s) (text t) h = ground (arith, list_eq→eq s t)

-- The bytes up to the first separator.
unfoldable pub up_to : ℕ → List ℕ → List ℕ
up_to sep [] = []
up_to sep (c ∷ cs) = if c == sep then [] else c ∷ up_to sep cs

-- `*tokens.begin()` of a `boost::tokenizer` that drops empty tokens.
unfoldable pub first_token : ℕ → List ℕ → List ℕ
unfolding up_to
first_token sep [] = []
first_token sep (c ∷ cs) = if c == sep then first_token sep cs else c ∷ up_to sep cs

-- "NavSatFix"
abbrev pub nav_sat_fix_name : List ℕ
nav_sat_fix_name = b'N' ∷ b'a' ∷ b'v' ∷ b'S' ∷ b'a' ∷ b't' ∷ b'F' ∷ b'i' ∷ b'x' ∷ []

-- "GPSFix"
abbrev pub gps_fix_name : List ℕ
gps_fix_name = b'G' ∷ b'P' ∷ b'S' ∷ b'F' ∷ b'i' ∷ b'x' ∷ []

-- "PoseWithCovarianceStamped"
abbrev pub pose_name : List ℕ
pose_name =
    b'P' ∷ b'o' ∷ b's' ∷ b'e' ∷ b'W' ∷ b'i' ∷ b't' ∷ b'h' ∷ b'C' ∷ b'o' ∷ b'v' ∷ b'a' ∷ b'r' ∷ b'i'
    ∷ b'a' ∷ b'n' ∷ b'c' ∷ b'e' ∷ b'S' ∷ b't' ∷ b'a' ∷ b'm' ∷ b'p' ∷ b'e' ∷ b'd' ∷ []

-- "GPST"
abbrev pub gpst_name : List ℕ
gpst_name = b'G' ∷ b'P' ∷ b'S' ∷ b'T' ∷ []

-- "DiagnosticArray"
abbrev pub diagnostic_array_name : List ℕ
diagnostic_array_name =
    b'D' ∷ b'i' ∷ b'a' ∷ b'g' ∷ b'n' ∷ b'o' ∷ b's' ∷ b't' ∷ b'i' ∷ b'c' ∷ b'A' ∷ b'r' ∷ b'r' ∷ b'a'
    ∷ b'y' ∷ []
