-- ===== src/Examples/Dmarc.antt =====
-- Domains with DMARC records, as pkg/authverify/dmarc.go judges them.
use mailscript.Base.{
  if◌then◌else◌, ok, ◌≤◌, ◌≡◌, ◌≢◌, ◌↔◌, true, false, Option, none, some, [], ◌∷◌, ◌++◌, reverse,
}
use mailscript.Text
use mailscript.Text.{Bytes, codes}
use mailscript.Spf.Types.{spf_pass, Resolver}
use mailscript.Dmarc.Record.{
  policy_unset, policy_none, policy_reject, DmarcRecord, lookup_dmarc, parse_dmarc_record,
}
use mailscript.Dmarc.Record.Defaults.{parse_dmarc_record-defaults}
use mailscript.Dmarc.Verdict.{dmarc_pass, dmarc_fail, is_set, applicable_policy, verify_dmarc}
use mailscript.Dmarc.Verdict.Soundness.{
  IsAuthenticated, verify_dmarc_pass, verify_dmarc_disposition,
}

-- The last two labels of a name, as under a public suffix of one label.
abbrev pub last_two : Bytes → Option Bytes
last_two domain = elim (reverse (Text.split b'.' domain)) [
  | [] ↦ none
  | top ∷ above ↦ elim above [ [] ↦ none | name ∷ _ ↦ some (name ++ (b'.' ∷ top)) ]
]

abbrev records : Resolver
records = record {
  enabled = true;
  lookup_txt = λ domain.
      if Text.eq domain (codes "_dmarc.example.org")
      then codes "v=DMARC1; p=reject; sp=quarantine" ∷ []
      else [];
  lookup_host = λ _. [];
  lookup_mx = λ _. [];
  lookup_ptr = λ _. [];
}

verify_dmarc_pass_example :
    ((verify_dmarc last_two records
        (codes "Mail.Example.org")
        spf_pass
        (codes "example.org")
        []).result
      ≡ dmarc_pass)
    ↔ ((Text.is_empty (Text.to_lower (Text.trim_space (codes "Mail.Example.org"))) ≡ false)
        × ((r : DmarcRecord) × (lookup_dmarc last_two records
                (Text.to_lower (Text.trim_space (codes "Mail.Example.org")))
              ≡ ok (some r))
            × (is_set r.policy ≡ true)
            × IsAuthenticated last_two
                (Text.to_lower (Text.trim_space (codes "Mail.Example.org")))
                r
                spf_pass
                (codes "example.org")
                []))
verify_dmarc_pass_example =
    verify_dmarc_pass last_two records (codes "Mail.Example.org") spf_pass (codes "example.org") []

verify_dmarc_disposition_example :
    ((verify_dmarc last_two records (codes "example.org") spf_pass (codes "example.com") []).result
        ≢ dmarc_fail
      → (verify_dmarc last_two records
          (codes "example.org")
          spf_pass
          (codes "example.com")
          []).disposition
        ≡ policy_none)
    × ((verify_dmarc last_two records
            (codes "example.org")
            spf_pass
            (codes "example.com")
            []).disposition
          ≡ policy_reject
        → (r : DmarcRecord) × (lookup_dmarc last_two records
              (Text.to_lower (Text.trim_space (codes "example.org")))
            ≡ ok (some r))
          × (applicable_policy r ≡ policy_reject)
          × (100 ≤ r.percent))
verify_dmarc_disposition_example =
    verify_dmarc_disposition last_two records (codes "example.org") spf_pass (codes "example.com")
      []

abbrev wrong_tags : Bytes
wrong_tags = codes "v=DMARC1; p=Reject; sp=never; pct=250"

parse_dmarc_record-defaults_example :
    ((parse_dmarc_record wrong_tags).percent ≤ 100)
    × ((parse_dmarc_record wrong_tags).raw ≡ wrong_tags)
    × ((parse_dmarc_record wrong_tags).subdomain_policy ≡ policy_unset
        → (parse_dmarc_record wrong_tags).policy ≡ policy_unset)
parse_dmarc_record-defaults_example = parse_dmarc_record-defaults wrong_tags
