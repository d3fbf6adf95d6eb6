-- ===== src/Dmarc/Record/Defaults.antt =====
-- `parseDMARCRecord` of pkg/authverify/dmarc.go: the fields of a record that was read.
use mailscript.Base.{ℤ, pos, negsuc, ℕ, ◌≤◌, ◌≡◌, Option, none, some, List, [], ◌∷◌, arith}
use mailscript.Text
use mailscript.Text.{Bytes, codes}
use mailscript.Dmarc.Record.{
  DmarcRecord, policy_unset, percent_of, set_tag, read_part, read_parts, unread, parse_dmarc_record,
}

percent_of-le : (o : Option ℤ) (before : ℕ) → before ≤ 100 → percent_of o before ≤ 100
unfolding percent_of
percent_of-le (some (pos n)) before h = ground arith
percent_of-le (some (negsuc n)) before h = h
percent_of-le none before h = h

-- The fields that no tag sets.
record Kept (r s : DmarcRecord) : Type 0 where
  percent : s.percent ≤ 100
  raw : s.raw ≡ r.raw
  domain : s.domain ≡ r.domain
  organizational : s.organizational ≡ r.organizational

set_tag-Kept :
    (key value : Bytes) (r : DmarcRecord) → r.percent ≤ 100 → Kept r (set_tag key value r)
unfolding set_tag
set_tag-Kept key value r h = ground (arith, percent_of-le (Text.atoi value) r.percent h)

read_part-Kept :
    (o : Option (Bytes × Bytes)) (r : DmarcRecord) → r.percent ≤ 100 → Kept r (read_part o r)
unfolding read_part
read_part-Kept none r h = ground arith
read_part-Kept (some (key, value)) r h = set_tag-Kept _ _ r h

read_parts-Kept :
    (parts : List Bytes) (r : DmarcRecord) → r.percent ≤ 100 → Kept r (read_parts parts r)
unfolding read_parts
read_parts-Kept [] r h = ground arith
read_parts-Kept (part ∷ parts) r h =
    let k = read_part-Kept (Text.cut b'=' part) r h in
    let rest = read_parts-Kept parts (read_part (Text.cut b'=' part) r) k.percent in
    ground (arith, k, rest)

-- Every record that is read asks for at most 100 percent, keeps its text, and has a subdomain policy
-- wherever it has a policy.
pub parse_dmarc_record-defaults :
    (raw : Bytes)
    → ((parse_dmarc_record raw).percent ≤ 100)
      × ((parse_dmarc_record raw).raw ≡ raw)
      × ((parse_dmarc_record raw).subdomain_policy ≡ policy_unset
          → (parse_dmarc_record raw).policy ≡ policy_unset)
unfolding parse_dmarc_record
parse_dmarc_record-defaults raw = ground (arith, read_parts-Kept (Text.split b';' raw) (unread raw))
