-- ===== src/Delivery/Envelope/Paths.antt =====
-- `parseSMTPPath` and the checks of addresses of cmd/mailscript/delivery.go, against the bytes of a line.
use mailscript.Base.{
  ltb, ◌==◌, if◌then◌else◌, Bool-cases, Option-cases, length, drop, any, drop-length, All, Result,
  ok, err, ℕ, ◌*◌, ◌≤◌, ◌≡◌, refl, subst, ◌≢◌, ◌↔◌, ◌⊎◌, inl, inr, Bool, true, false, not, ◌||◌,
  Option, none, some, List, [], ◌∷◌, ◌++◌, arith,
}
use mathlib.Core.Path.{ap₂}
use mailscript.Text
use mailscript.Text.{Bytes, codes}
use mailscript.Text.Laws.{
  eq→≡, has_prefix-drop, cut-append, cut-eq-some, trim_lem, has_prefix-to_upper,
}
use mailscript.Delivery.Envelope.{
  has_delimiter, valid_envelope_address, validate_envelope, PathError, missing_path, mail_from,
  size_fits, supported_parameter, path_parts, read_path, parse_smtp_path,
}

-- A byte that may stand in an envelope address: no control character and no angle bracket.
abbrev pub IsAddressByte : ℕ → Type 0
IsAddressByte c = (32 ≤ c) × (c ≢ 127) × (c ≢ b'<') × (c ≢ b'>')

-- What an address has to be, without the code's two scans.
abbrev pub IsEnvelopeAddress : Bool → Bytes → Type 0
IsEnvelopeAddress allow_empty [] = allow_empty ≡ true
IsEnvelopeAddress allow_empty (c ∷ s) = All IsAddressByte (c ∷ s)

scans-exact :
    (s : Bytes)
    → ((has_delimiter s ≡ false) × (any (λ r. ltb r 32 || r == 127) s ≡ false))
      ↔ All IsAddressByte s
unfolding has_delimiter
scans-exact [] = (λ _. tt, λ _. (refl, refl))
scans-exact (c ∷ s) = (
  λ h. ((ground arith, ground arith, ground arith, ground arith), (scans-exact s).0 (ground arith)),
  λ h. ground (arith, (scans-exact s).1 h.1),
)

-- An address is valid exactly if it is empty where that is allowed, or if every byte of it is an
-- address byte: no control character and no angle bracket.
pub valid_envelope_address_exact :
    (address : Bytes) (allow_empty : Bool)
    → (valid_envelope_address address allow_empty ≡ true) ↔ IsEnvelopeAddress allow_empty address
unfolding valid_envelope_address
valid_envelope_address_exact [] allow_empty = (λ h. h, λ h. h)
valid_envelope_address_exact (c ∷ s) allow_empty =
    (λ h. (scans-exact (c ∷ s)).0 (ground arith), λ h. ground (arith, (scans-exact (c ∷ s)).1 h))

recipients-IsEnvelopeAddress :
    (to : List Bytes)
    → any (λ rcpt. not (valid_envelope_address rcpt false)) to ≡ false
      ↔ All (IsEnvelopeAddress false) to
recipients-IsEnvelopeAddress [] = (λ _. tt, λ _. refl)
recipients-IsEnvelopeAddress (r ∷ to) = (
  λ h. (
    (valid_envelope_address_exact r false).0 (ground arith),
    (recipients-IsEnvelopeAddress to).0 (ground arith),
  ),
  λ h. ground (
    arith,
    (valid_envelope_address_exact r false).1 h.0,
    (recipients-IsEnvelopeAddress to).1 h.1,
  ),
)

-- An envelope is accepted exactly if its sender is an address or empty, it has a recipient, and
-- every recipient is an address.
pub validate_envelope_exact :
    (from : Bytes) (to : List Bytes)
    → (validate_envelope from to ≡ none)
      ↔ (IsEnvelopeAddress true from × (to ≢ []) × All (IsEnvelopeAddress false) to)
unfolding validate_envelope
validate_envelope_exact from [] = (λ h. ground arith, λ h. absurd (h.1 refl))
validate_envelope_exact from (r ∷ to) = (
  λ h. (
    (valid_envelope_address_exact from true).0 (ground arith),
    ground arith,
    (recipients-IsEnvelopeAddress (r ∷ to)).0 (ground arith),
  ),
  λ h. ground (
    arith,
    (valid_envelope_address_exact from true).1 h.0,
    (recipients-IsEnvelopeAddress (r ∷ to)).1 h.2,
  ),
)

read_path-eq-ok :
    (prefix : Bytes) (ae : Bool) (o : Option (Bytes × Bytes)) (a : Bytes)
    → read_path prefix ae o ≡ ok a
    → (rest : Bytes) × (IsEnvelopeAddress ae a × (o ≡ some (a, rest)))
      × (any
            (λ parameter. not (supported_parameter prefix (Text.to_upper parameter)))
            (Text.fields rest)
          ≡ false)
unfolding read_path
read_path-eq-ok prefix ae none a h = cc
read_path-eq-ok prefix ae (some (address, rest)) a h =
    let same : address ≡ a = ground arith in
    (
      rest,
      (
        subst (IsEnvelopeAddress ae) same
            ((valid_envelope_address_exact address ae).0 (ground arith)),
        ground arith,
      ),
      ground arith,
    )

-- What is done with the text behind the command.
abbrev read_bracketed : Bytes → Bytes → Bool → Result PathError Bytes
read_bracketed prefix path ae =
    if not (Text.has_prefix (b'<' ∷ []) path)
    then err missing_path
    else read_path prefix ae (path_parts path)

bracketed-eq-ok :
    (prefix path : Bytes) (ae : Bool) (a : Bytes)
    → read_bracketed prefix path ae ≡ ok a
    → (rest : Bytes) × IsEnvelopeAddress ae a
      × (path ≡ b'<' ∷ (a ++ (b'>' ∷ rest)))
      × (any
            (λ parameter. not (supported_parameter prefix (Text.to_upper parameter)))
            (Text.fields rest)
          ≡ false)
unfolding Text.has_prefix path_parts
bracketed-eq-ok prefix [] ae a h = cc
bracketed-eq-ok prefix (c ∷ path) ae a h =
    let starts : c ≡ b'<' = ground arith in
    let reads : read_path prefix ae (Text.cut b'>' path) ≡ ok a = ground arith in
    let (r, vp, k) = read_path-eq-ok prefix ae (Text.cut b'>' path) a reads in
    (r, vp.0, ap₂ (λ d s. d ∷ s) starts (cut-eq-some b'>' path (a, r) vp.1), k)

-- A parameter of MAIL FROM that the server announces: one of the two for the body, or a size of at most
-- 50 MiB.
abbrev pub IsParameter : Bytes → Bytes → Type 0
IsParameter prefix p =
    (prefix ≡ mail_from)
    × ((Text.to_upper p ≡ codes "BODY=8BITMIME")
        ⊎ (Text.to_upper p ≡ codes "BODY=7BIT")
        ⊎ ((digits : Bytes) × (n : ℕ) × (Text.to_upper p ≡ codes "SIZE=" ++ digits)
            × (Text.parse_uint digits ≡ some n)
            × (n ≤ 50 * 1024 * 1024)))

supported_parameter-IsParameter :
    (prefix p : Bytes) → supported_parameter prefix (Text.to_upper p) ≡ true → IsParameter prefix p
unfolding supported_parameter size_fits Text.to_upper codes
supported_parameter-IsParameter prefix p h =
    let q = Text.to_upper p in
    let from : prefix ≡ mail_from = eq→≡ prefix mail_from (ground arith) in
    elim (Bool-cases (Text.eq q (codes "BODY=8BITMIME"))) [
      | inl e ↦ (from, inl (eq→≡ q (codes "BODY=8BITMIME") e))
      | inr e ↦ elim (Bool-cases (Text.eq q (codes "BODY=7BIT"))) [
        | inl f ↦ (from, inr (inl (eq→≡ q (codes "BODY=7BIT") f)))
        | inr f ↦
            let sized : Text.has_prefix (codes "SIZE=") q ≡ true = ground arith in
            let same : q ≡ codes "SIZE=" ++ drop 5 q = has_prefix-drop (codes "SIZE=") q sized in
            elim (Option-cases (Text.parse_uint (drop 5 q))) [
              | inl g ↦ absurd (ground (arith, g))
              | inr g ↦ (from, inr (inr (drop 5 q, g.0, same, g.1, ground (arith, g.1))))
            ]
      ]
    ]

all-IsParameter :
    (prefix : Bytes) (ps : List Bytes)
    → any (λ p. not (supported_parameter prefix (Text.to_upper p))) ps ≡ false
    → All (IsParameter prefix) ps
all-IsParameter prefix [] h = tt
all-IsParameter prefix (p ∷ ps) h = (
  supported_parameter-IsParameter prefix p (ground arith),
  all-IsParameter prefix ps (ground arith),
)

-- A path that is accepted is read off the line: behind the command, in any case of its letters, and
-- white space stands the address between angle brackets. The address is one, or is empty where that
-- is allowed, and each parameter behind it is one that the server announces: only MAIL FROM has any,
-- and these are BODY=8BITMIME, BODY=7BIT and a SIZE of at most 50 MiB, in any case of their letters.
pub parse_smtp_path_sound :
    (line prefix : Bytes) (allow_empty : Bool) (a : Bytes)
    → parse_smtp_path line prefix allow_empty ≡ ok a
    → IsEnvelopeAddress allow_empty a
      × ((rest : Bytes) × (Text.trim_space (drop (length prefix) line)
            ≡ b'<' ∷ (a ++ (b'>' ∷ rest)))
          × All (IsParameter prefix) (Text.fields rest))
      × (Text.has_prefix prefix (Text.to_upper line) ≡ true)
unfolding parse_smtp_path
parse_smtp_path_sound line prefix ae a h =
    let command : Text.has_prefix prefix (Text.to_upper line) ≡ true = ground arith in
    let (rest, v, e, k) =
      bracketed-eq-ok prefix (Text.trim_space (drop (length prefix) line)) ae a (rw command at h) in
    (v, (rest, e, all-IsParameter prefix (Text.fields rest) k), command)

bytes-ne-bracket : (s : Bytes) → All IsAddressByte s → All (λ c. c ≢ b'>') s
bytes-ne-bracket [] v = tt
bytes-ne-bracket (c ∷ s) v = (v.0.3, bytes-ne-bracket s v.1)

address-ne-bracket : (ae : Bool) (a : Bytes) → IsEnvelopeAddress ae a → All (λ c. c ≢ b'>') a
address-ne-bracket ae [] v = tt
address-ne-bracket ae (c ∷ s) v = (v.0.3, bytes-ne-bracket s v.1)

path_trimmed : (a : Bytes) → Text.trim_space (b'<' ∷ (a ++ (b'>' ∷ []))) ≡ b'<' ∷ (a ++ (b'>' ∷ []))
unfolding Text.trim_space
path_trimmed a = trim_lem Text.is_space b'<' b'>' a refl refl

-- An address that may stand in the envelope is read back from the command that carries it, for
-- a command in capitals such as MAIL FROM and RCPT TO.
pub parse_smtp_path_roundtrip :
    (prefix : Bytes) (allow_empty : Bool) (a : Bytes)
    → Text.to_upper prefix ≡ prefix
    → IsEnvelopeAddress allow_empty a
    → parse_smtp_path (prefix ++ (b'<' ∷ (a ++ (b'>' ∷ [])))) prefix allow_empty ≡ ok a
unfolding parse_smtp_path
parse_smtp_path_roundtrip prefix ae a u v =
    rw
      (
        has_prefix-to_upper prefix (b'<' ∷ (a ++ (b'>' ∷ []))) u,
        drop-length prefix (b'<' ∷ (a ++ (b'>' ∷ []))),
        path_trimmed a,
      )
      (unfold Text.has_prefix read_path Text.fields in
        rw
          (
            cut-append b'>' a [] (address-ne-bracket ae a v),
            (valid_envelope_address_exact a ae).1 v,
          )
          refl)
