-- ===== src/Video/FileName/Laws.antt =====
-- What the recorder relies on in the names it gives its files: the formats it asks the encoder for,
-- and the temporary name, which keeps format and folder and is never the destination.
use gz_drl.Base.{
  zero, length-append, ℕ, suc, ◌+◌, ◌≤◌, ◌<◌, ◌≡◌, refl, ◌≢◌, ◌⊎◌, inl, inr, [], ◌∷◌, ◌++◌, Option,
  none, some, arith, Name, codes, length, take, drop, name_beq_iff, Option-cases, append_assoc, ap,
  ◌∙◌, sym,
}
use gz_drl.Video.FileName.Search.{
  find_last_of, find_last_of-append-some, find_last_of-append-none, find_last_of_lt,
  find_last_of-take-some, find_last_of-take-none, find_last_of-inj,
}
use gz_drl.Video.FileName.{
  mp4, avi, ogv, supported_or_mp4, format_from_filename, extension_start, tmp_name,
}

-- A format is one of the three.
abbrev pub IsFormat : Name → Type 0
IsFormat f = (f ≡ mp4) ⊎ (f ≡ avi) ⊎ (f ≡ ogv)

supported_or_mp4-IsFormat : (ext : Name) → IsFormat (supported_or_mp4 ext)
supported_or_mp4-IsFormat ext =
    ground (arith, name_beq_iff ext mp4, name_beq_iff ext avi, name_beq_iff ext ogv)

pub format_from_filename-IsFormat : (s : Name) → IsFormat (format_from_filename s)
unfolding format_from_filename
format_from_filename-IsFormat s = elim (Option-cases (find_last_of b'.' s)) [
  | inl e ↦ rw (e, format_from_filename) (inl refl)
  | inr (dot, e) ↦
      rw (e, format_from_filename) (ground (arith, supported_or_mp4-IsFormat (drop (dot + 1) s)))
]

pub supported_or_mp4_of_IsFormat : (f : Name) → IsFormat f → supported_or_mp4 f ≡ f
supported_or_mp4_of_IsFormat f (inl e) = rw e
supported_or_mp4_of_IsFormat f (inr (inl e)) = rw e
supported_or_mp4_of_IsFormat f (inr (inr e)) = rw e

IsFormat-no-dot : (f : Name) → IsFormat f → find_last_of b'.' f ≡ none
unfolding find_last_of
IsFormat-no-dot f (inl e) = rw e
IsFormat-no-dot f (inr (inl e)) = rw e
IsFormat-no-dot f (inr (inr e)) = rw e

IsFormat-no-slash : (f : Name) → IsFormat f → find_last_of b'/' f ≡ none
unfolding find_last_of
IsFormat-no-slash f (inl e) = rw e
IsFormat-no-slash f (inr (inl e)) = rw e
IsFormat-no-slash f (inr (inr e)) = rw e

drop_behind : (s t : Name) (c n : ℕ) → n ≡ length s → drop (suc n) (s ++ c ∷ t) ≡ t
drop_behind [] t c n e = rw e
drop_behind (x ∷ s) t c n e = rw e (drop_behind s t c (length s) refl)

dot_at :
    (stem ext : Name)
    → find_last_of b'.' ext ≡ none
    → find_last_of b'.' (stem ++ b'.' ∷ ext) ≡ some (length stem)
unfolding find_last_of
dot_at stem ext lacks = ground (arith, find_last_of-append-some b'.' stem (b'.' ∷ ext) 0)

-- The format of a file name is the text behind its last dot where that is supported, and mp4
-- otherwise.
pub format-append :
    (stem ext : Name)
    → find_last_of b'.' ext ≡ none
    → format_from_filename (stem ++ b'.' ∷ ext) ≡ supported_or_mp4 ext
unfolding format_from_filename
format-append stem [] lacks =
    rw (dot_at stem [] lacks, format_from_filename)
      (ground (arith, drop_behind stem [] b'.' (length stem)))
format-append stem (c ∷ ext) lacks =
    rw (dot_at stem (c ∷ ext) lacks, format_from_filename)
      (ground
        (arith, drop_behind stem (c ∷ ext) b'.' (length stem), length-append stem (b'.' ∷ c ∷ ext)))

suffix : Name → Name
suffix output = codes ".tmp." ++ format_from_filename output

suffix_dot : (o : Name) → find_last_of b'.' (suffix o) ≡ some 4
unfolding suffix find_last_of
suffix_dot o =
    ground (arith, IsFormat-no-dot (format_from_filename o) (format_from_filename-IsFormat o))

suffix_slash : (o : Name) → find_last_of b'/' (suffix o) ≡ none
unfolding suffix find_last_of
suffix_slash o =
    ground (arith, IsFormat-no-slash (format_from_filename o) (format_from_filename-IsFormat o))

tmp_dot :
    (o : Name) → find_last_of b'.' (tmp_name o) ≡ some (length (take (extension_start o) o) + 4)
unfolding tmp_name suffix
tmp_dot o = find_last_of-append-some b'.' (take (extension_start o) o) (suffix o) 4 (suffix_dot o)

length-take : (s : Name) (n : ℕ) → n ≤ length s → length (take n s) ≡ n
length-take s zero h = refl
length-take [] (suc n) h = omega arith
length-take (x ∷ s) (suc n) h = omega (arith, length-take s n)

extension_start-le : (o : Name) → extension_start o ≤ length o
unfolding extension_start
extension_start-le o = grind (arith, find_last_of_lt)

stem_length : (o : Name) → length (take (extension_start o) o) ≡ extension_start o
stem_length o = length-take o (extension_start o) (extension_start-le o)

-- A dot before the extension is the last one, or there is no extension.
extension_start_cases :
    (o : Name) → (find_last_of b'.' o ≡ some (extension_start o)) ⊎ (extension_start o ≡ length o)
unfolding extension_start
extension_start_cases o = ground arith

-- The temporary file is never the destination itself, whatever the destination is called.
pub tmp_name-ne : (output : Name) → tmp_name output ≢ output
tmp_name-ne o e = elim (extension_start_cases o) [
  | inl at ↦ ground (arith, ap (find_last_of b'.') e, tmp_dot o, stem_length o)
  | inr end ↦ ground (
    arith,
    ap (find_last_of b'.') e,
    tmp_dot o,
    stem_length o,
    find_last_of_lt b'.' o (length (take (extension_start o) o) + 4),
  )
]

tmp_name_split :
    (o : Name)
    → tmp_name o ≡ (take (extension_start o) o ++ codes ".tmp") ++ b'.' ∷ format_from_filename o
unfolding tmp_name
tmp_name_split o =
    sym (append_assoc (take (extension_start o) o) (codes ".tmp") (b'.' ∷ format_from_filename o))

-- The encoder sees the same format in the temporary name as in the destination's.
pub format-tmp_name :
    (output : Name) → format_from_filename (tmp_name output) ≡ format_from_filename output
format-tmp_name o = rw (tmp_name_split o) (
    format-append (take (extension_start o) o ++ codes ".tmp") (format_from_filename o)
      (IsFormat-no-dot (format_from_filename o) (format_from_filename-IsFormat o))
    ∙ supported_or_mp4_of_IsFormat (format_from_filename o) (format_from_filename-IsFormat o))

slash-lt-extension : (o : Name) (i : ℕ) → find_last_of b'/' o ≡ some i → i < extension_start o
unfolding extension_start
slash-lt-extension o i h = ground (arith, find_last_of_lt b'/' o i, find_last_of-inj b'/' b'.' o i)

slash-le-extension : (o : Name) (i : ℕ) → find_last_of b'/' o ≡ some i → i ≤ extension_start o
slash-le-extension o i h = omega (arith, slash-lt-extension o i h)

take-take-append : (o t : Name) (i d : ℕ) → i ≤ d → d ≤ length o → take i (take d o ++ t) ≡ take i o
take-take-append o t zero d h k = refl
take-take-append [] t (suc i) zero h k = absurd (omega arith)
take-take-append [] t (suc i) (suc d) h k = absurd (omega arith)
take-take-append (x ∷ o) t (suc i) zero h k = absurd (omega arith)
take-take-append (x ∷ o) t (suc i) (suc d) h k =
    ap (◌∷◌ x) (take-take-append o t i d (omega arith) (omega arith))

tmp_slash :
    (o : Name) → find_last_of b'/' (tmp_name o) ≡ find_last_of b'/' (take (extension_start o) o)
unfolding tmp_name suffix
tmp_slash o = find_last_of-append-none b'/' (take (extension_start o) o) (suffix o) (suffix_slash o)

-- A path's folder: what stands in front of its last slash.
unfoldable pub folder : Name → Option Name
folder s = elim (find_last_of b'/' s) [ none ↦ none | some i ↦ some (take i s) ]

-- The temporary file stands in the folder of the destination.
pub folder-tmp_name : (output : Name) → folder (tmp_name output) ≡ folder output
unfolding folder tmp_name suffix
folder-tmp_name o = elim (Option-cases (find_last_of b'/' o)) [
  | inl e ↦ rw (e, tmp_slash o, find_last_of-take-none b'/' o (extension_start o) e, folder) refl
  | inr (i, e) ↦
      rw
        (
          e,
          tmp_slash o,
          find_last_of-take-some b'/' o (extension_start o) i e (slash-lt-extension o i e),
          folder,
        )
        (ap some (
          take-take-append o (suffix o) i (extension_start o) (slash-le-extension o i e)
            (extension_start-le o)))
]

take_front : (s t : Name) (n : ℕ) → n ≡ length s → take n (s ++ t) ≡ s
take_front [] t n e = rw e
take_front (x ∷ s) t n e = rw e (ap (◌∷◌ x) (take_front s t (length s) refl))

slash_before :
    (stem ext : Name)
    → find_last_of b'/' ext ≡ none
    → find_last_of b'/' (stem ++ b'.' ∷ ext) ≡ find_last_of b'/' stem
unfolding find_last_of
slash_before stem ext h = ground (arith, find_last_of-append-none b'/' stem (b'.' ∷ ext))

extension_start-append :
    (stem ext : Name)
    → find_last_of b'.' ext ≡ none
    → find_last_of b'/' ext ≡ none
    → extension_start (stem ++ b'.' ∷ ext) ≡ length stem
unfolding extension_start
extension_start-append stem ext h k =
    grind (arith, dot_at stem ext, slash_before stem ext, find_last_of_lt)

-- Two destinations that differ only in their extensions share one temporary file where the
-- recorder encodes both in one format.
pub tmp_name-shared :
    (stem e f : Name)
    → find_last_of b'.' e ≡ none
    → find_last_of b'/' e ≡ none
    → find_last_of b'.' f ≡ none
    → find_last_of b'/' f ≡ none
    → supported_or_mp4 e ≡ supported_or_mp4 f
    → tmp_name (stem ++ b'.' ∷ e) ≡ tmp_name (stem ++ b'.' ∷ f)
unfolding tmp_name
tmp_name-shared stem e f he ke hf kf same = cc (
  extension_start-append stem e he ke,
  extension_start-append stem f hf kf,
  take_front stem (b'.' ∷ e) (length stem) refl,
  take_front stem (b'.' ∷ f) (length stem) refl,
  format-append stem e he,
  format-append stem f hf,
)
