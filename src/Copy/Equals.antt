-- ===== src/Copy/Equals.antt =====
-- `PqcapCopyBindData::Equals` of src/pqcap_copy_function.cpp.
use duckdb_pqcap_reader.Base.{
  ℕ, ◌≡◌, ◌↔◌, refl, ap, arith, Option, none, some, Bool, true, false, ◌==◌, ◌&&◌,
}
use mathlib.Core.Path.{subst}
use duckdb_pqcap_reader.Words.Equality.{same_bytes, same_bytes→eq, same_bytes_refl}
use duckdb_pqcap_reader.Copy.{PqcapCopyBindData}

-- The comparison of two `idx_t`, either of which may be `DConstants::INVALID_INDEX`.
abbrev pub same_idx : Option ℕ → Option ℕ → Bool
same_idx none none = true
same_idx none (some j) = false
same_idx (some i) none = false
same_idx (some i) (some j) = i == j

unfoldable pub equals : PqcapCopyBindData → PqcapCopyBindData → Bool
equals a b =
    same_bytes a.mode b.mode
    && a.linktype == b.linktype
    && same_idx a.idx_timestamp_micros b.idx_timestamp_micros
    && same_idx a.idx_orig_len b.idx_orig_len
    && same_idx a.idx_payload b.idx_payload
    && same_idx a.idx_interface_id b.idx_interface_id
    && same_idx a.idx_data_link b.idx_data_link
    && same_idx a.idx_captured_length b.idx_captured_length
    && same_idx a.idx_comment b.idx_comment
    && same_idx a.idx_src_ip b.idx_src_ip
    && same_idx a.idx_dst_ip b.idx_dst_ip
    && same_idx a.idx_src_port b.idx_src_port
    && same_idx a.idx_dst_port b.idx_dst_port
    && same_idx a.idx_protocols b.idx_protocols

same_idx→eq : (i j : Option ℕ) → same_idx i j ≡ true → i ≡ j
same_idx→eq none none h = refl
same_idx→eq none (some j) h = cc
same_idx→eq (some i) none h = cc
same_idx→eq (some i) (some j) h = ap some (ground arith)

same_idx_refl : (i : Option ℕ) → same_idx i i ≡ true
same_idx_refl none = refl
same_idx_refl (some i) = ground arith

both : (x y : Bool) → (x && y) ≡ true → (x ≡ true) × (y ≡ true)
both true y h = (refl, h)
both false y h = cc

equals_refl : (a : PqcapCopyBindData) → equals a a ≡ true
unfolding equals
equals_refl a =
    let same_linktype : (a.linktype == a.linktype) ≡ true = ground arith in
    simp (same_bytes_refl, same_idx_refl, same_linktype)

same_fields : (a b : PqcapCopyBindData) → equals a b ≡ true → a ≡ b
unfolding equals
same_fields a b h =
    let (h₁, protocols) = both _ _ h in
    let (h₂, dst_port) = both _ _ h₁ in
    let (h₃, src_port) = both _ _ h₂ in
    let (h₄, dst_ip) = both _ _ h₃ in
    let (h₅, src_ip) = both _ _ h₄ in
    let (h₆, comment) = both _ _ h₅ in
    let (h₇, captured_length) = both _ _ h₆ in
    let (h₈, data_link) = both _ _ h₇ in
    let (h₉, interface_id) = both _ _ h₈ in
    let (h₁₀, payload) = both _ _ h₉ in
    let (h₁₁, orig_len) = both _ _ h₁₀ in
    let (h₁₂, timestamp_micros) = both _ _ h₁₁ in
    let (h₁₃, linktype) = both _ (a.linktype == b.linktype) h₁₂ in
    let same_linktype : a.linktype ≡ b.linktype = ground (arith, linktype) in
    λ i. record {
      mode = same_bytes→eq a.mode b.mode h₁₃ i;
      linktype = same_linktype i;
      idx_timestamp_micros =
          same_idx→eq a.idx_timestamp_micros b.idx_timestamp_micros timestamp_micros i;
      idx_orig_len = same_idx→eq a.idx_orig_len b.idx_orig_len orig_len i;
      idx_payload = same_idx→eq a.idx_payload b.idx_payload payload i;
      idx_interface_id = same_idx→eq a.idx_interface_id b.idx_interface_id interface_id i;
      idx_data_link = same_idx→eq a.idx_data_link b.idx_data_link data_link i;
      idx_captured_length =
          same_idx→eq a.idx_captured_length b.idx_captured_length captured_length i;
      idx_comment = same_idx→eq a.idx_comment b.idx_comment comment i;
      idx_src_ip = same_idx→eq a.idx_src_ip b.idx_src_ip src_ip i;
      idx_dst_ip = same_idx→eq a.idx_dst_ip b.idx_dst_ip dst_ip i;
      idx_src_port = same_idx→eq a.idx_src_port b.idx_src_port src_port i;
      idx_dst_port = same_idx→eq a.idx_dst_port b.idx_dst_port dst_port i;
      idx_protocols = same_idx→eq a.idx_protocols b.idx_protocols protocols i;
    }

-- Two bindings compare as equal exactly if they are the same, so that none of their fields is left out.
pub equals_iff : (a b : PqcapCopyBindData) → (equals a b ≡ true) ↔ (a ≡ b)
unfolding equals
equals_iff a b = (λ h. same_fields a b h, λ e. subst (λ c. equals a c ≡ true) e (equals_refl a))
