-- ===== src/Transport/Policies.antt =====
-- What a valid MTA-STS policy of pkg/authverify/transport.go is.
use mailscript.Base.{
  ltb, ◌==◌, if◌then◌else◌, Bool-cases, Option-cases, length, drop, any, List-cases, All,
  Result-cases, ok, pos, negsuc, ℕ, ◌^◌, ◌≤◌, ◌<◌, ◌≡◌, ap, subst, ◌≢◌, ◌⊎◌, inl, inr, true, false,
  not, ◌&&◌, ◌||◌, none, some, List, [], ◌∷◌, ◌++◌, arith,
}
use mailscript.Text
use mailscript.Text.{Bytes, codes}
use mailscript.Text.Laws.{eq→≡}
use mailscript.Dkim.Fields.{crlf_to_lf}
use mailscript.Transport.{
  is_valid, MtaStsPolicy, Network, normalize_policy_domain, parse_policy_tags, tag_value,
  values_named, max_policy_bytes, read_policy_lines, bad_pattern, is_mode, age_of, set_age, set_mx,
  set_mode, is_version, parse_mta_sts_policy,
}
use mailscript.Transport.Discovery.{
  no_policy, candidates, judge_policy, policy_url, read_sts_record, check_mta_sts,
}

-- A pattern for mail hosts: a name, or "*." and a name.
abbrev pub IsPattern : Bytes → Type 0
IsPattern pattern =
    (Text.has_prefix (codes "*.") pattern ≡ true)
      × (Text.is_empty (normalize_policy_domain (drop 2 pattern)) ≡ false)
    ⊎ (any (λ c. c == b'*') pattern ≡ false)
      × (Text.is_empty (normalize_policy_domain pattern) ≡ false)

-- What a policy says that is read without an error.
pub record IsContent (q : MtaStsPolicy) : Type 0 where
  pub mode : is_mode q.mode ≡ true
  pub hosts : (q.mode ≡ codes "none") ⊎ (q.mx ≢ [])
  pub patterns : All IsPattern q.mx
  pub age : q.max_age < 2 ^ 63

bad_pattern-none : (ps : List Bytes) → bad_pattern ps ≡ none → All IsPattern ps
unfolding bad_pattern
bad_pattern-none [] h = tt
bad_pattern-none (p ∷ ps) h = elim (Bool-cases (Text.has_prefix (codes "*.") p)) [
  | inl w ↦ elim (Bool-cases (Text.is_empty (normalize_policy_domain (drop 2 p)))) [
    | inl e ↦ absurd (ground (arith, w, e, h))
    | inr e ↦ (inl (w, e), bad_pattern-none ps (rw (w, e) at h))
  ]
  | inr w ↦ elim (Bool-cases (any (λ c. c == b'*') p)) [
    | inl s ↦ absurd (ground (arith, w, s, h))
    | inr s ↦ elim (Bool-cases (Text.is_empty (normalize_policy_domain p))) [
      | inl e ↦ absurd (ground (arith, w, s, e, h))
      | inr e ↦ (inr (s, e), bad_pattern-none ps (rw (w, s, e) at h))
    ]
  ]
]

-- A number that is not negative is within an int64.
atoi-bound : (s : Bytes) (n : ℕ) → Text.atoi s ≡ some (pos n) → n < 2 ^ 63
unfolding Text.atoi
atoi-bound [] n h = cc
atoi-bound (c ∷ s) n h = elim (Bool-cases (c == b'-')) [
  | inl e ↦ elim (Option-cases (Text.parse_uint s)) [
    | inl g ↦ absurd (ground (arith, e, g, h))
    | inr (m, g) ↦ ground (arith, e, g, h)
  ]
  | inr e ↦ elim (Option-cases (Text.parse_uint (if c == b'+' then s else c ∷ s))) [
    | inl g ↦ absurd (ground (arith, e, g, h))
    | inr (m, g) ↦ ground (arith, e, g, h)
  ]
]

age_of-bound : (s : Bytes) (n : ℕ) → age_of s ≡ some n → n < 2 ^ 63
age_of-bound s n h = elim (Option-cases (Text.atoi s)) [
  | inl e ↦ absurd (ground (arith, e, h))
  | inr (pos m, e) ↦ ground (arith, e, h, atoi-bound s m e)
  | inr (negsuc m, e) ↦ absurd (ground (arith, e, h))
]

-- The error part of a step decides: without an error, the step has gone on.
set_age-IsContent :
    (texts : List Bytes) (out q : MtaStsPolicy)
    → is_mode out.mode ≡ true
    → (out.mode ≡ codes "none") ⊎ (out.mx ≢ [])
    → All IsPattern out.mx
    → set_age texts out ≡ (q, none)
    → IsContent q
unfolding set_age
set_age-IsContent [] out q m hosts ps h = absurd (ground (arith, h))
set_age-IsContent (text ∷ u ∷ us) out q m hosts ps h = absurd (ground (arith, h))
set_age-IsContent (text ∷ []) out q m hosts ps h = elim (Option-cases (age_of text)) [
  | inl e ↦ absurd (ground (arith, e, h))
  | inr (n, e) ↦
      let read : (record out { max_age = n }, none) ≡ (q, none) = rw (e, set_age) at h in
      subst IsContent (ap (λ x. x.0) read)
        (record { mode = m; hosts = hosts; patterns = ps; age = age_of-bound text n e })
]

none-or-some :
    (mode : Bytes) (mx : List Bytes)
    → (not (Text.eq mode (codes "none")) && ltb (length mx) 1) ≡ false
    → (mode ≡ codes "none") ⊎ (mx ≢ [])
none-or-some mode mx h = elim (Bool-cases (Text.eq mode (codes "none"))) [
  | inl e ↦ inl (eq→≡ mode (codes "none") e)
  | inr e ↦ inr (λ g. let empty : length mx ≡ 0 = ap length g in ground (arith, e, h, empty))
]

set_mx-IsContent :
    (fields : List (Bytes × Bytes)) (out q : MtaStsPolicy)
    → is_mode out.mode ≡ true
    → set_mx fields out ≡ (q, none)
    → IsContent q
unfolding set_mx
set_mx-IsContent fields out q m h =
    let mx = values_named (codes "mx") fields in
    elim (Bool-cases (not (Text.eq out.mode (codes "none")) && ltb (length mx) 1)) [
      | inl e ↦ absurd (ground (arith, rw (e, set_mx) at h))
      | inr e ↦ elim (Option-cases (bad_pattern mx)) [
        | inr (p, g) ↦ absurd (ground (arith, rw (e, g, set_mx) at h))
        | inl g ↦
            set_age-IsContent (values_named (codes "max_age") fields) (record out { mx = mx }) q m
              (none-or-some out.mode mx e) (bad_pattern-none mx g) (rw (e, g, set_mx) at h)
      ]
    ]

set_mode-IsContent :
    (texts : List Bytes) (fields : List (Bytes × Bytes)) (out q : MtaStsPolicy)
    → set_mode texts fields out ≡ (q, none)
    → IsContent q
unfolding set_mode
set_mode-IsContent [] fields out q h = absurd (ground (arith, h))
set_mode-IsContent (text ∷ u ∷ us) fields out q h = absurd (ground (arith, h))
set_mode-IsContent (text ∷ []) fields out q h = elim (Bool-cases (is_mode (Text.to_lower text))) [
  | inl e ↦
      set_mx-IsContent fields (record out { mode = Text.to_lower text }) q e (rw (e, set_mode) at h)
  | inr e ↦ absurd (ground (arith, rw (e, set_mode) at h))
]

parse_mta_sts_policy-IsContent :
    (body : Bytes) (out q : MtaStsPolicy)
    → parse_mta_sts_policy body out ≡ (q, none)
    → IsContent q × (length body ≤ max_policy_bytes)
unfolding parse_mta_sts_policy
parse_mta_sts_policy-IsContent body out q h =
    elim (Bool-cases (ltb max_policy_bytes (length body))) [
      | inl l ↦ absurd (ground (arith, rw (l, parse_mta_sts_policy) at h))
      | inr l ↦ elim (Result-cases (read_policy_lines (Text.split b'\n' (crlf_to_lf body)))) [
        | inr (line, e) ↦ absurd (ground (arith, rw (l, e, parse_mta_sts_policy) at h))
        | inl (fields, e) ↦ elim (Bool-cases (is_version (values_named (codes "version") fields))) [
          | inr v ↦ absurd (ground (arith, rw (l, e, v, parse_mta_sts_policy) at h))
          | inl v ↦ (
            set_mode-IsContent (values_named (codes "mode") fields) fields out q
                (rw (l, e, v, parse_mta_sts_policy) at h),
            ground (arith, l),
          )
        ]
      ]
    ]

-- A policy that was fetched from the host for the domain, and read.
pub record IsFetched (network : Network) (domain : Bytes) (p : MtaStsPolicy) : Type 0 where
  pub body : Bytes
  pub fetched : network.fetch (policy_url domain) ≡ ok body
  pub fits : length body ≤ max_policy_bytes
  pub content : IsContent p

judge_policy-IsContent :
    (body : Bytes) (out : MtaStsPolicy)
    → is_valid (judge_policy (parse_mta_sts_policy body out)).result ≡ true
    → IsContent (judge_policy (parse_mta_sts_policy body out)) × (length body ≤ max_policy_bytes)
judge_policy-IsContent body out h =
    let parsed = parse_mta_sts_policy body out in
    elim (Option-cases parsed.1) [
      | inr (e, g) ↦ absurd (
          let failed : parsed ≡ (parsed.0, some e) = λ i. (parsed.0, g i) in
          ground (arith, rw failed at h))
      | inl g ↦
          let read : parsed ≡ (parsed.0, none) = λ i. (parsed.0, g i) in
          let known = parse_mta_sts_policy-IsContent body out parsed.0 read in
          let c = known.0 in
          rw read
            (record { mode = c.mode; hosts = c.hosts; patterns = c.patterns; age = c.age }, known.1)
    ]

read_sts_record-IsFetched :
    (network : Network) (text : Bytes) (policy : MtaStsPolicy)
    → is_valid (read_sts_record network text policy).result ≡ true
    → IsFetched network policy.domain (read_sts_record network text policy)
unfolding read_sts_record
read_sts_record-IsFetched network text policy h =
    let tags = parse_policy_tags text in
    let out : MtaStsPolicy = record policy { id = Text.trim_space (tag_value (codes "id") tags) } in
    elim (Bool-cases (
      not (Text.equal_fold (tag_value (codes "v") tags) (codes "STSv1")) || Text.is_empty out.id)) [
        | inl e ↦ absurd (ground (arith, rw (e, read_sts_record) at h))
        | inr e ↦ elim (Result-cases (network.fetch (policy_url policy.domain))) [
          | inr (failure, g) ↦ absurd (ground (arith, rw (e, g, read_sts_record) at h))
          | inl (body, g) ↦
              let known = judge_policy-IsContent body out (rw (e, g, read_sts_record) at h) in
              rw (e, g, read_sts_record)
                (record { body = body; fetched = g; fits = known.1; content = known.0 })
        ]
      ]

-- An MTA-STS policy is valid only if the domain is a host name, the query for its TXT records met no
-- error and found exactly one that begins with the version, and the policy of at most 64 KiB that
-- was fetched from the host mta-sts of the domain was read: its mode is none, testing or enforce, it
-- has a pattern for mail hosts unless the mode is none, each pattern is a host name, or a host name
-- behind "*.", and its max_age is within an int64.
pub check_mta_sts-IsFetched :
    (network : Network) (given : Bytes)
    → is_valid (check_mta_sts network given).result ≡ true
    → let domain = normalize_policy_domain given in
      let answer = network.lookup_txt (codes "_mta-sts." ++ domain) in
      (Text.is_empty domain ≡ false)
      × (Text.is_empty answer.error ≡ true)
      × ((text : Bytes) × (candidates (codes "v=stsv1") answer.records ≡ text ∷ []))
      × IsFetched network domain (check_mta_sts network given)
unfolding check_mta_sts
check_mta_sts-IsFetched network given h =
    let domain = normalize_policy_domain given in
    let answer = network.lookup_txt (codes "_mta-sts." ++ domain) in
    elim (Bool-cases (Text.is_empty domain || not network.enabled)) [
      | inl e ↦ absurd (ground (arith, rw (e, check_mta_sts) at h))
      | inr e ↦ elim (Bool-cases (Text.is_empty answer.error)) [
        | inr g ↦ absurd (ground (arith, rw (e, g, check_mta_sts) at h))
        | inl g ↦ elim (List-cases (candidates (codes "v=stsv1") answer.records)) [
          | inl k ↦ absurd (ground (arith, rw (e, g, k, check_mta_sts) at h))
          | inr (text, [], k) ↦ (
            ground (arith, e),
            g,
            (text, k),
            rw (e, g, k, check_mta_sts)
                (read_sts_record-IsFetched network text
                  (record (no_policy domain) { dnssec = answer.secure })
                  (rw (e, g, k, check_mta_sts) at h)),
          )
          | inr (text, other ∷ others, k) ↦
              absurd (ground (arith, rw (e, g, k, check_mta_sts) at h))
        ]
      ]
    ]
