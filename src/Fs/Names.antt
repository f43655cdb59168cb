-- ===== src/Fs/Names.antt =====
-- Strings and parents, filesys/fs.c: comparison, the copy of a name into an inode, and
-- fs_get_parent.
use gannet_os.Base.{
  ℕ, zero, suc, ◌+◌, ◌-◌, ◌≤◌, ◌<◌, ◌≡◌, ◌≢◌, ◌↔◌, refl, ap, ◌∙◌, true, List, [], ◌∷◌, ◌++◌, ◌==◌,
  if◌then◌else◌, length, arith, length-take, take-prefix, ==_of_ne,
}
use gannet_os.Fs.Paths.{str_eq, text, copy_text, str_copy, slash, root, last_slash, fs_get_parent}

pub str_eq_iff : (a b : List ℕ) → (str_eq a b ≡ true) ↔ (a ≡ b)
unfolding str_eq
str_eq_iff [] [] = (λ h. refl, λ h. refl)
str_eq_iff [] (y ∷ b) = (λ h. cc, λ h. cc)
str_eq_iff (x ∷ a) [] = (λ h. cc, λ h. cc)
str_eq_iff (x ∷ a) (y ∷ b) =
    (λ h. ground (arith, (str_eq_iff a b).0), λ h. ground (arith, (str_eq_iff a b).1))

pub str_eq_refl : (a : List ℕ) → str_eq a a ≡ true
str_eq_refl a = (str_eq_iff a a).1 refl

-- No byte of the string is `c`.
abbrev pub Free : ℕ → List ℕ → Type 0
Free c [] = Unit
Free c (x ∷ xs) = (x ≢ c) × Free c xs

-- A name that fits comes back as it was.
text-copy_text :
    (left : ℕ) (d s : List ℕ)
    → length s ≤ left
    → left < length d
    → Free 0 s
    → text (copy_text left d s) ≡ s
unfolding text copy_text
text-copy_text left [] s h p f = absurd (omega arith)
text-copy_text zero (x ∷ d) [] h p f = refl
text-copy_text zero (x ∷ d) (c ∷ s) h p f = absurd (omega arith)
text-copy_text (suc left) (x ∷ d) [] h p f = refl
text-copy_text (suc left) (x ∷ d) (c ∷ s) h p f =
    rw (==_of_ne c 0 f.0)
      (ap (λ t. c ∷ t) (text-copy_text left d s (omega arith) (omega arith) f.1))

pub length-copy_text : (left : ℕ) (d s : List ℕ) → length (copy_text left d s) ≡ length d
unfolding copy_text
length-copy_text left [] s = refl
length-copy_text zero (x ∷ d) s = refl
length-copy_text (suc left) (x ∷ d) [] = refl
length-copy_text (suc left) (x ∷ d) (c ∷ s) = ap suc (length-copy_text left d s)

pub text-str_copy :
    (d s : List ℕ) (max : ℕ)
    → length s < max
    → max ≤ length d
    → Free 0 s
    → text (str_copy d s max) ≡ s
unfolding str_copy
text-str_copy d s max h p f = text-copy_text (max - 1) d s (omega arith) (omega arith) f

-- Behind the last slash nothing moves it.
last_slash-Free : (q : List ℕ) (i last : ℕ) → Free slash q → last_slash q i last ≡ last
unfolding last_slash
last_slash-Free [] i last f = refl
last_slash-Free (c ∷ q) i last f = rw (==_of_ne c slash f.0) (last_slash-Free q (i + 1) last f.1)

last_slash-append :
    (p q : List ℕ) (i last : ℕ) → Free slash q → last_slash (p ++ (slash ∷ q)) i last ≡ i + length p
unfolding last_slash
last_slash-append [] q i last f = last_slash-Free q (i + 1) i f ∙ omega arith
last_slash-append (c ∷ p) q i last f =
    last_slash-append p q (i + 1) (if c == slash then i else last) f ∙ omega arith

-- The parent of `p/q` is `p`, and the parent of `/q` is the root.
pub fs_get_parent-append :
    (p q : List ℕ)
    → Free slash q
    → fs_get_parent (p ++ (slash ∷ q)) ≡ (if length p == 0 then root else p)
unfolding fs_get_parent
fs_get_parent-append p q f = rw (last_slash-append p q 0 0 f) (
    let same : 0 + length p ≡ length p = omega arith in
    rw same (ap (λ t. if length p == 0 then root else t) (take-prefix p (slash ∷ q))))

last_slash-lt : (p : List ℕ) (i last n : ℕ) → i + length p ≤ n → last < n → last_slash p i last < n
unfolding last_slash
last_slash-lt [] i last n h l = l
last_slash-lt (c ∷ p) i last n h l =
    last_slash-lt p (i + 1) (if c == slash then i else last) n (omega arith) (ground arith)

-- A parent is shorter than its entries.
pub fs_get_parent-lt : (path : List ℕ) → 1 < length path → length (fs_get_parent path) < length path
unfolding fs_get_parent
fs_get_parent-lt path h = ground (
  arith,
  last_slash-lt path 0 0 (length path) (omega arith) (omega arith),
  length-take (last_slash path 0 0) path,
)

pub length-text : (a : List ℕ) → length (text a) ≤ length a
unfolding text
length-text [] = omega arith
length-text (c ∷ cs) = ground (arith, length-text cs)

-- Only the root is as short as one character and a parent.
pub fs_get_parent_short : (path : List ℕ) → length path ≤ 1 → fs_get_parent path ≡ root
unfolding fs_get_parent last_slash
fs_get_parent_short [] h = refl
fs_get_parent_short (c ∷ []) h = ground arith
fs_get_parent_short (c ∷ c' ∷ cs) h = absurd (omega arith)
