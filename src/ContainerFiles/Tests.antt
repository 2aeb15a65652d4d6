-- ===== src/ContainerFiles/Tests.antt =====
-- Two files in and out of an archive, for a writer of archives of one-byte files with two names, and
-- a reader of what it writes.
use qrl_tests.Prelude.{
  ℕ, zero, suc, String, Bool, true, false, ◌&&◌, none, List, [], ◌∷◌, ◌≡◌, refl, arith, map, str_eq,
  eq_iff, ◌==◌, if◌then◌else◌, Bool-cases, inl, inr, ap, sym, ◌∙◌,
}
use qrl_tests.Errors.{Result, ok, fail, plain, ◌>>=◌, >>=-eq-ok, ok_injective}
use qrl_tests.ContainerFiles.{File, Header, Entry, ArchiveEnd, TarWriter, archive, read_entries}
use qrl_tests.ContainerFiles.RoundTrip.{entry_of, restored, AreNew, read_entries-archive}

abbrev name_of : ℕ → String
name_of zero = "tmp/a"
name_of (suc i) = "b"

abbrev number_of : String → ℕ
number_of name = if str_eq name "tmp/a" then 0 else 1

abbrev is_packable : Header → Bool
is_packable header =
    str_eq (name_of (number_of header.name)) header.name && header.is_regular && header.size == 1

unfoldable pack : List (Header × List ℕ) → Result (List ℕ)
pack [] = ok []
pack ((header, []) ∷ rest) = fail (plain "no byte")
pack ((header, x ∷ y ∷ body) ∷ rest) = fail (plain "too many bytes")
pack ((header, x ∷ []) ∷ rest) =
    let later = pack rest in
    if is_packable header
    then (later >>= λ payload. ok (number_of header.name ∷ header.mode ∷ x ∷ payload))
    else fail (plain "other file")

unfoldable unpacked : List ℕ → List Entry
unpacked (i ∷ mode ∷ x ∷ rest) =
    entry_of (record { name = name_of i; mode = mode; is_regular = true; size = 1 }, x ∷ [])
    ∷ unpacked rest
unpacked _ = []

abbrev unpack : List ℕ → List Entry × ArchiveEnd
unpack payload = (unpacked payload, ArchiveEnd.at_end)

same_header :
    (header : Header)
    → is_packable header ≡ true
    → (record {
      name = name_of (number_of header.name);
      mode = header.mode;
      is_regular = true;
      size = 1;
    })
      ≡ header
same_header header h =
    let named : name_of (number_of header.name) ≡ header.name =
      (eq_iff (name_of (number_of header.name)) header.name).0 (ground (arith, h)) in
    let regular : true ≡ header.is_regular = ground (arith, h) in
    let sized : 1 ≡ header.size = ground (arith, h) in
    λ i. record { name = named i; mode = header.mode; is_regular = regular i; size = sized i }

-- What a packed file adds.
pack-cons :
    (header : Header) (x : ℕ) (rest : List (Header × List ℕ))
    → is_packable header ≡ true
    → pack ((header, x ∷ []) ∷ rest)
      ≡ (pack rest >>= λ payload. ok (number_of header.name ∷ header.mode ∷ x ∷ payload))
unfolding pack
pack-cons header x rest h = rw (h, pack)

pack-other :
    (header : Header) (x : ℕ) (rest : List (Header × List ℕ)) (payload : List ℕ)
    → is_packable header ≡ false
    → pack ((header, x ∷ []) ∷ rest) ≡ ok payload
    → ⊥
unfolding pack
pack-other header x rest payload h done = ground (arith, h, done)

unpacked-pack :
    (written : List (Header × List ℕ)) (payload : List ℕ)
    → pack written ≡ ok payload
    → unpacked payload ≡ map entry_of written
unfolding pack unpacked
unpacked-pack [] payload h = ap unpacked (sym (ok_injective h))
unpacked-pack ((header, []) ∷ rest) payload h = absurd cc
unpacked-pack ((header, x ∷ y ∷ body) ∷ rest) payload h = absurd cc
unpacked-pack ((header, x ∷ []) ∷ rest) payload h = elim (Bool-cases (is_packable header)) [
  | inr e ↦ absurd (pack-other header x rest payload e h)
  | inl e ↦
      let (later, packed_rest, done) =
        >>=-eq-ok (pack rest) (λ p. ok (number_of header.name ∷ header.mode ∷ x ∷ p))
          (sym (pack-cons header x rest e) ∙ h) in
      ap unpacked (sym (ok_injective done))
      ∙ (λ i. entry_of (same_header header e i, x ∷ []) ∷ unpacked-pack rest later packed_rest i)
]

abbrev writer : TarWriter
writer = record {
  write_header = λ written header. none;
  write_body = λ written header body. none;
  close = pack;
}

abbrev files : List File
files =
    record { name = "/tmp//a"; body = 65 ∷ []; mode = 0 }
    ∷ record { name = "b"; body = 66 ∷ []; mode = 420 }
    ∷ []

packed : archive writer files ≡ ok (0 ∷ 384 ∷ 65 ∷ 1 ∷ 420 ∷ 66 ∷ [])
unfolding archive pack
packed = refl

read_entries-archive_example :
    (read_entries "/"
        (unpack (0 ∷ 384 ∷ 65 ∷ 1 ∷ 420 ∷ 66 ∷ [])).0
        (unpack (0 ∷ 384 ∷ 65 ∷ 1 ∷ 420 ∷ 66 ∷ [])).1
      ≡ ok (map (restored "/") files))
    × AreNew [] files
read_entries-archive_example =
    read_entries-archive writer unpack files (0 ∷ 384 ∷ 65 ∷ 1 ∷ 420 ∷ 66 ∷ []) "/"
      (λ written payload h.
        ap (λ entries. (entries, ArchiveEnd.at_end)) (unpacked-pack written payload h))
      packed
