-- ===== src/RuleSet.antt =====
-- clash-lib/src/app/remote_content_manager/providers/rule_provider/mrs.rs: the MRS format of a rule set,
-- behind its decompression.
--
-- The content of a set of domains is the parts that `DomainSet::from_mrs_parts` is given, and that of a
-- set of addresses the networks that are inserted into the table of `CidrTrie`.
pub mod Format
mod Examples
use clash_rs.Prelude.{
  ℕ, zero, suc, ◌*◌, ◌^◌, List, [], ◌∷◌, ◌++◌, length, take, drop, ltb, leb, ◌==◌, Option, none,
  some, Bool, true, false, if◌then◌else◌,
}
use clash_rs.Prelude.Text.{Text, text_eq}
use clash_rs.Prelude.Words.{from_be}
use clash_rs.Prelude.Outcome.{Outcome, ok, err, panic, ◌>>=◌}
use clash_rs.Session.{v6}
use clash_rs.CidrRanges.{IpNet, CidrError, range_to_cidrs}

abbrev pub mrs_magic_bytes : Text
mrs_magic_bytes = b'M' ∷ (b'R' ∷ (b'S' ∷ (1 ∷ [])))

pub data RuleSetBehavior : Type 0 where
  domain ipcidr classical : RuleSetBehavior

pub data MrsError : Type 0 where
  truncated invalid_magic invalid_behavior behavior_mismatch invalid_count invalid_extra : MrsError
  unsupported_version invalid_length too_long unsupported_behavior : MrsError
  invalid_range : CidrError → MrsError

-- The contents that a file of this format gives.
pub data RuleContent : Type 0 where
  domain_set : List ℕ → List ℕ → Text → RuleContent
  cidr_trie : List IpNet → RuleContent

abbrev pub to_mrs_byte : RuleSetBehavior → Option ℕ
to_mrs_byte domain = some 0
to_mrs_byte ipcidr = some 1
to_mrs_byte classical = none

abbrev pub from_mrs_byte : ℕ → Outcome MrsError RuleSetBehavior
from_mrs_byte b = if b == 0 then ok domain else if b == 1 then ok ipcidr else err invalid_behavior

abbrev pub same_behavior : RuleSetBehavior → RuleSetBehavior → Bool
same_behavior domain domain = true
same_behavior ipcidr ipcidr = true
same_behavior classical classical = true
same_behavior domain ipcidr = false
same_behavior domain classical = false
same_behavior ipcidr domain = false
same_behavior ipcidr classical = false
same_behavior classical domain = false
same_behavior classical ipcidr = false

-- `read_exact` and the readers of words.
unfoldable pub read_bytes : ℕ → Text → Outcome MrsError (Text × Text)
read_bytes n s = if ltb (length s) n then err truncated else ok (take n s, drop n s)

-- The negative numbers of `i64` are the words from 2^63 on.
unfoldable pub read_u64_length : Text → Outcome MrsError (ℕ × Text)
unfolding read_bytes
read_u64_length s = do
  (bs, s) ← read_bytes 8 s
  if leb (2 ^ 63) (from_be bs) then err invalid_length else ok (from_be bs, s)

unfoldable pub read_u64_vec : ℕ → Text → Outcome MrsError (List ℕ × Text)
unfolding read_bytes
read_u64_vec zero s = ok ([], s)
read_u64_vec (suc count) s = do
  (bs, s) ← read_bytes 8 s
  (vec, s) ← read_u64_vec count s
  ok (from_be bs ∷ vec, s)

abbrev pub read_byte_vec : ℕ → Text → Outcome MrsError (Text × Text)
read_byte_vec len s = if ltb (512 * 1024 * 1024) len then err too_long else read_bytes len s

unfoldable pub parse_domain_payload : Text → Outcome MrsError RuleContent
unfolding read_bytes read_u64_length read_u64_vec
parse_domain_payload s = do
  (version, s) ← read_bytes 1 s
  if text_eq version (1 ∷ [])
      then (do
        (leaves_len, s) ← read_u64_length s
        (leaves, s) ← read_u64_vec leaves_len s
        (label_bitmap_len, s) ← read_u64_length s
        (label_bitmap, s) ← read_u64_vec label_bitmap_len s
        (labels_len, s) ← read_u64_length s
        (labels, s) ← read_byte_vec labels_len s
        ok (domain_set leaves label_bitmap labels))
      else err unsupported_version

abbrev pub in_context : Outcome CidrError (List IpNet) → Outcome MrsError (List IpNet)
in_context (ok nets) = ok nets
in_context (err e) = err (invalid_range e)
in_context panic = panic

unfoldable pub read_ranges : ℕ → Text → Outcome MrsError (List IpNet)
unfolding read_bytes
read_ranges zero s = ok []
read_ranges (suc count) s = do
  (range_buf, s) ← read_bytes 32 s
  cidrs ←
      in_context
        (range_to_cidrs (v6 (from_be (take 16 range_buf))) (v6 (from_be (drop 16 range_buf))))
  rest ← read_ranges count s
  ok (cidrs ++ rest)

unfoldable pub parse_ipcidr_payload : Text → Outcome MrsError RuleContent
unfolding read_bytes read_u64_length read_ranges
parse_ipcidr_payload s = do
  (version, s) ← read_bytes 1 s
  if text_eq version (1 ∷ [])
      then (do
        (ranges_len, s) ← read_u64_length s
        nets ← read_ranges ranges_len s
        ok (cidr_trie nets))
      else err unsupported_version

abbrev pub parse_payload : RuleSetBehavior → Text → Outcome MrsError RuleContent
parse_payload domain s = parse_domain_payload s
parse_payload ipcidr s = parse_ipcidr_payload s
parse_payload classical s = err unsupported_behavior

unfoldable pub rules_mrs_parse : RuleSetBehavior → Text → Outcome MrsError RuleContent
unfolding read_bytes parse_domain_payload parse_ipcidr_payload
rules_mrs_parse expected_behavior s = do
  (magic, s) ← read_bytes 4 s
  if text_eq magic mrs_magic_bytes
      then (do
        (behavior_byte, s) ← read_bytes 1 s
        actual_behavior ← from_mrs_byte (from_be behavior_byte)
        if same_behavior actual_behavior expected_behavior
            then (do
              (count, s) ← read_bytes 8 s
              if leb (2 ^ 63) (from_be count) then err invalid_count else (do
                (extra_length, s) ← read_bytes 8 s
                if from_be extra_length == 0
                    then parse_payload actual_behavior s
                    else err invalid_extra))
            else err behavior_mismatch)
      else err invalid_magic
