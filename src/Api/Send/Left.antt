-- ===== src/Api/Send/Left.antt =====
-- What the calls of unlink in mf_send leave of the files.
use phantom_monitoring_clien.Base.{
  ◌≡◌, refl, ◌∙◌, List, [], ◌∷◌, ◌++◌, Option, none, Bool, true, false, Bytes, codes, if◌then◌else◌,
  str_eq, str_eq_refl, All, arith,
}
use phantom_monitoring_clien.Api.{file_in}
use phantom_monitoring_clien.Api.Send.{unlink}

abbrev pub Files : Type 0
Files = Bytes → Option (List Bytes)

-- What unlink leaves of the files.
abbrev pub left : Bool → (Bytes → Bool) → Bytes → List Bytes → Files → Files
left keep dirs path [] files = files
left keep dirs path (name ∷ names) files =
    let next : Files = if keep then files else unlink dirs (file_in path name) files in
    left keep dirs path names next

pub str_eq-append : (p a b : Bytes) → str_eq (p ++ a) (p ++ b) ≡ str_eq a b
unfolding str_eq
str_eq-append [] a b = refl
str_eq-append (c ∷ p) a b = ground (arith, str_eq-append p a b)

pub unlink-other :
    (dirs : Bytes → Bool) (path x y : Bytes) (files : Files)
    → str_eq y x ≡ false
    → unlink dirs (file_in path x) files (file_in path y) ≡ files (file_in path y)
unfolding unlink file_in
unlink-other dirs path x y files differ =
    rw (unlink, str_eq-append (path ++ codes "/") y x, differ) refl

pub left-none :
    (keep : Bool) (dirs : Bytes → Bool) (path p : Bytes) (names : List Bytes) (files : Files)
    → files p ≡ none
    → left keep dirs path names files p ≡ none
unfolding unlink
left-none keep dirs path p [] files gone = gone
left-none true dirs path p (x ∷ names) files gone = left-none true dirs path p names files gone
left-none false dirs path p (x ∷ names) files gone =
    left-none false dirs path p names (unlink dirs (file_in path x) files) (ground arith)

-- A directory stays.
pub left-directory :
    (keep : Bool) (dirs : Bytes → Bool) (path p : Bytes) (names : List Bytes) (files : Files)
    → dirs p ≡ true
    → left keep dirs path names files p ≡ files p
unfolding unlink
left-directory keep dirs path p [] files stays = refl
left-directory true dirs path p (x ∷ names) files stays =
    left-directory true dirs path p names files stays
left-directory false dirs path p (x ∷ names) files stays =
    left-directory false dirs path p names (unlink dirs (file_in path x) files) stays ∙ ground arith

pub unlink-same :
    (dirs : Bytes → Bool) (path : Bytes) (files : Files)
    → dirs path ≡ false
    → unlink dirs path files path ≡ none
unfolding unlink
unlink-same dirs path files file = rw (str_eq_refl path, file) refl

pub left-keep :
    (dirs : Bytes → Bool) (path : Bytes) (names : List Bytes) (files : Files)
    → left true dirs path names files ≡ files
left-keep dirs path [] files = refl
left-keep dirs path (x ∷ names) files = left-keep dirs path names files

pub left-gone :
    (dirs : Bytes → Bool) (path : Bytes) (names : List Bytes) (files : Files)
    → All
        (λ name.
          dirs (file_in path name) ≡ false
          → left false dirs path names files (file_in path name) ≡ none)
        names
left-gone dirs path [] files = tt
left-gone dirs path (x ∷ names) files = (
  λ file.
      left-none false dirs path (file_in path x) names (unlink dirs (file_in path x) files)
        (unlink-same dirs (file_in path x) files file),
  left-gone dirs path names (unlink dirs (file_in path x) files),
)
