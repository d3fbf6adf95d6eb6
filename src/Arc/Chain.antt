-- ===== src/Arc/Chain.antt =====
-- `VerifyARC` of pkg/authverify/arc.go.
pub mod Soundness
use mailscript.Base.{
  ◌==◌, if◌then◌else◌, length, any, Result, ok, err, ℕ, zero, suc, ◌+◌, Bool, false, not, ◌&&◌,
  ◌||◌, Option, none, some, List, [], ◌∷◌, ◌++◌,
}
use mailscript.Text
use mailscript.Text.{Bytes, codes}
use mailscript.Spf.Types.{Resolver}
use mailscript.Dkim.Fields.{Headers, count_header}
use mailscript.Dkim.Tags.{Tags, TagError, tag_value, parse_strict_dkim_tags}
use mailscript.Dkim.Key.{
  Crypto, DkimResult, dkim_none, dkim_pass, dkim_fail, dkim_temperror, dkim_permerror,
}
use mailscript.Dkim.Outcome.{Reason, SignatureResult}
use mailscript.Dkim.Signature.{verify_one_message_signature}
use mailscript.Dkim.Result.{is_pass}
use mailscript.Arc.Sets.{ArcSet, ArcSets, ArcFault, find_set, collect_sets}
use mailscript.Arc.Seal.{FullSet, SealReason, header_at, verify_arc_seal}

pub data ArcReason : Type 0 where
  no_chain no_arc_resolver all_verified : ArcReason
  arc_fault : ArcFault → ArcReason
  arc_from_fields missing_field ams_failed seal_failed : ℕ → ArcReason
  arc_tags : TagError → ArcReason
  wrong_cv : Bytes → ArcReason

-- The explanation of a set.
pub data SetReason : Type 0 where
  cv_unexpected : Bytes → SetReason
  covers_arc : SetReason
  ams_reason : Reason → SetReason
  seal_reason : SealReason → SetReason

-- What was found for one set; the parts that were not reached are `none`.
pub record ArcSetResult : Type 0 where
  pub instance_number : ℕ
  pub domain : Bytes
  pub selector : Bytes
  pub chain_validation : Bytes
  pub message_signature : Option DkimResult
  pub seal : Option DkimResult
  pub explanation : SetReason

pub record ArcOutcome : Type 0 where
  pub result : DkimResult
  pub sets : List ArcSetResult
  pub explanation : ArcReason

abbrev full_seal : ℕ → ℕ → Option ℕ → Option FullSet
full_seal a b none = none
full_seal a b (some c) = some (record { aar_at = a; ams_at = b; as_at = c })

abbrev full_ams : ℕ → Option ℕ → Option ℕ → Option FullSet
full_ams a none c = none
full_ams a (some b) c = full_seal a b c

abbrev full_aar : Option ℕ → Option ℕ → Option ℕ → Option FullSet
full_aar none b c = none
full_aar (some a) b c = full_ams a b c

-- The set, if it is there and has its three fields.
unfoldable pub full_set : Option ArcSet → Option FullSet
full_set none = none
full_set (some set) = full_aar set.aar_index set.ams_index set.as_index

abbrev pub expected_cv : ℕ → Bytes
expected_cv n = if n == 1 then codes "none" else codes "pass"

-- A field that an ARC-Message-Signature must not cover.
abbrev pub is_arc_name : Bytes → Bool
is_arc_name name =
    let key = Text.to_lower name in
    Text.eq key (codes "authentication-results")
    || Text.eq key (codes "arc-authentication-results")
    || Text.eq key (codes "arc-message-signature")
    || Text.eq key (codes "arc-seal")

-- The result of the message signature, and why.
unfoldable pub judge_ams : SignatureResult → DkimResult × SetReason
judge_ams r =
    if any is_arc_name r.headers_signed
    then (dkim_permerror, covers_arc)
    else (r.result, ams_reason r.explanation)

module _ (crypto : Crypto) (resolver : Resolver) (headers : Headers) (body : Bytes) (now : ℕ) where
  unfoldable pub verify_ams : ℕ → SignatureResult
  verify_ams index = verify_one_message_signature crypto resolver (record {
    headers = headers;
    sig_index = index;
    body = body;
    now = now;
    field_name = codes "ARC-Message-Signature";
    require_version = false;
  })

  -- What comes of one set: the chain ends here, or the set is good.
  unfoldable pub seal_set :
      Bool
      → ℕ
      → List FullSet
      → FullSet
      → ArcSetResult
      → DkimResult × SetReason
      → Result (DkimResult × ArcReason × ArcSetResult) ArcSetResult
  seal_set last n before set detail (ams, why) =
      let judged = record detail { message_signature = some ams } in
      if not (is_pass ams) && last
      then err (ams, ams_failed n, record judged { explanation = why })
      else let sealed = verify_arc_seal crypto resolver headers before set in
        let done = record judged { seal = some sealed.0; explanation = seal_reason sealed.1 } in
        if is_pass sealed.0 then ok done else err (sealed.0, seal_failed n, done)

  unfoldable pub verify_set_tags :
      Bool
      → ℕ
      → List FullSet
      → FullSet
      → Tags
      → Result (DkimResult × ArcReason × ArcSetResult) ArcSetResult
  verify_set_tags last n before set tags =
      let cv = Text.to_lower (tag_value tags (codes "cv")) in
      let detail : ArcSetResult = record {
        instance_number = n;
        domain = Text.to_lower (tag_value tags (codes "d"));
        selector = tag_value tags (codes "s");
        chain_validation = cv;
        message_signature = none;
        seal = none;
        explanation = cv_unexpected cv;
      } in
      if not (Text.eq cv (expected_cv n))
      then err (dkim_fail, wrong_cv cv, detail)
      else seal_set last n before set detail (judge_ams (verify_ams set.ams_at))

  abbrev stop : List ArcSetResult → DkimResult → ArcReason → ArcOutcome
  stop found result why = record { result = result; sets = found; explanation = why }

  -- What comes of the set of instance `n`: the chain ends, or here are the set and its result.
  unfoldable pub verify_instance :
      Bool
      → ℕ
      → List FullSet
      → Option FullSet
      → Result (DkimResult × ArcReason × List ArcSetResult) (FullSet × ArcSetResult)
  verify_instance last n before none = err (dkim_permerror, missing_field n, [])
  verify_instance last n before (some set) =
      elim (parse_strict_dkim_tags (header_at headers set.as_at).1) [
        | err e ↦ err (dkim_permerror, arc_tags e, [])
        | ok tags ↦ elim (verify_set_tags last n before set tags) [
          | err ended ↦ err (ended.0, ended.1, ended.2 ∷ [])
          | ok detail ↦ ok (set, detail)
        ]
      ]

  -- The loop over the instances: `left` are still to be verified, from instance `n` on; `before` are
  -- the sets and `found` the results of the instances before.
  unfoldable pub verify_chain :
      ArcSets → (left n : ℕ) → List FullSet → List ArcSetResult → ArcOutcome
  verify_chain sets zero n before found = record {
    result = dkim_pass;
    sets = found;
    explanation = all_verified;
  }
  verify_chain sets (suc left) n before found =
      elim (verify_instance (left == 0) n before (full_set (find_set sets n))) [
        | err ended ↦ stop (found ++ ended.2) ended.0 ended.1
        | ok good ↦
            verify_chain sets left (n + 1) (before ++ (good.0 ∷ [])) (found ++ (good.1 ∷ []))
      ]

  -- The sets, once they are collected.
  unfoldable pub verify_sets : ArcSets → ArcOutcome
  verify_sets sets =
      if length sets == 0
      then stop [] dkim_none no_chain
      else if not (count_header headers (codes "From") == 1)
      then stop [] dkim_permerror (arc_from_fields (count_header headers (codes "From")))
      else if not resolver.enabled
      then stop [] dkim_temperror no_arc_resolver
      else verify_chain sets (length sets) 1 [] []

  unfoldable pub verify_arc : ArcOutcome
  verify_arc = elim (collect_sets [] 0 headers) [
    | err e ↦ stop [] dkim_permerror (arc_fault e)
    | ok sets ↦ verify_sets sets
  ]
