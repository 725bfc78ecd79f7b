-- ===== src/Projects/Retry/Roundtrip.antt =====
-- What a retry reads back of the rows that an import wrote.
use dimax_ops_backend.Base.{
  ℕ, zero, suc, ◌≤◌, ◌≡◌, refl, ap, ◌∙◌, false, Option, some, List, [], ◌∷◌, arith, String, strip,
  clip, chars, is_blank_text, All, if◌then◌else◌,
}
use dimax_ops_backend.Domain.{DoorLabels, PreparedRow, SerializedRow}
use dimax_ops_backend.Projects.Retry.{
  Codec, empty_to_none, tidy_labels, price_text, serialize_prepared_rows, deserialize_row,
  deserialize_retry_rows, append_some,
}

clip_all : (n : ℕ) (s : String) → chars s ≤ n → clip n s ≡ s
unfolding clip
clip_all zero String.[] h = refl
clip_all zero (String.◌∷◌ c s) h = absurd (omega arith)
clip_all (suc n) String.[] h = refl
clip_all (suc n) (String.◌∷◌ c s) h = ap (λ t. String.◌∷◌ c t) (clip_all n s (omega arith))

-- What Python documents of `str` and the parsers: a text that they write has no outer space, is not
-- empty, and is parsed to the value that it was written from.
pub record Laws (codec : Codec) : Type 0 where
  pub uuid : (id : ℕ) → codec.uuid (strip (codec.str_uuid id)) ≡ some id
  pub uuid_given : (id : ℕ) → is_blank_text (strip (codec.str_uuid id)) ≡ false
  pub decimal : (n : ℕ) → codec.decimal (strip (codec.str_decimal n)) ≡ some n
  pub decimal_given : (n : ℕ) → is_blank_text (codec.str_decimal n) ≡ false
  pub decimal_zero : codec.decimal (strip "0") ≡ some 0

-- An optional text without outer space, and not empty.
abbrev IsTidyText : Option String → Type 0
IsTidyText o = empty_to_none o ≡ o

-- A row whose texts carry no outer space and are not empty, and whose label fits its column.
pub record IsTidy (r : PreparedRow) : Type 0 where
  pub label : strip r.labels.unit_label ≡ r.labels.unit_label
  pub given : is_blank_text r.labels.unit_label ≡ false
  pub short : chars r.labels.unit_label ≤ 120
  pub order_number : IsTidyText r.labels.order_number
  pub house_number : IsTidyText r.labels.house_number
  pub floor_label : IsTidyText r.labels.floor_label
  pub apartment_number : IsTidyText r.labels.apartment_number
  pub location_code : IsTidyText r.labels.location_code
  pub door_marking : IsTidyText r.labels.door_marking

tidy_labels_tidy :
    (r : PreparedRow) → IsTidy r → tidy_labels r.labels.unit_label r.labels ≡ r.labels
tidy_labels_tidy r t = cc (
  t.order_number, t.house_number, t.floor_label, t.apartment_number, t.location_code,
  t.door_marking,
)

-- A row as it is serialized, with the labels `l`.
abbrev plain : Codec → PreparedRow → DoorLabels → SerializedRow
plain codec r l = record {
  door_type_id = codec.str_uuid r.door_type_id;
  our_price = price_text codec r.our_price;
  labels = l;
}

labels_read :
    (r : PreparedRow)
    → IsTidy r
    → tidy_labels (clip 120 (strip r.labels.unit_label)) r.labels ≡ r.labels
labels_read r t =
    ap (λ s. tidy_labels s r.labels)
      (ap (clip 120) t.label ∙ clip_all 120 r.labels.unit_label t.short)
    ∙ tidy_labels_tidy r t

module _ (codec : Codec) (laws : Laws codec) where
  -- A price that was written is read back.
  price_read :
      (n : ℕ)
      → codec.decimal
          (strip (if is_blank_text (price_text codec n) then "0" else price_text codec n))
        ≡ some n
  price_read zero = laws.decimal_zero
  price_read (suc n) = rw (laws.decimal_given (suc n)) (laws.decimal (suc n))

  deserialize_tidy :
      (r : PreparedRow) → IsTidy r → deserialize_row codec (plain codec r r.labels) ≡ some r
  unfolding deserialize_row
  deserialize_tidy r t = ground (
    arith,
    laws.uuid_given r.door_type_id,
    t.label,
    t.given,
    laws.uuid r.door_type_id,
    price_read r.our_price,
    labels_read r t,
  )

-- The rows that a run keeps for its retry are read back as they were, when their texts carry no
-- outer space and are not empty, their labels fit, and the parsers of UUIDs and decimals read
-- what str writes.
pub deserialize-serialize :
    (codec : Codec) (rows : List PreparedRow)
    → Laws codec
    → All IsTidy rows
    → deserialize_retry_rows codec (serialize_prepared_rows codec rows) ≡ rows
unfolding deserialize_retry_rows serialize_prepared_rows
deserialize-serialize codec [] laws t = refl
deserialize-serialize codec (r ∷ rows) laws t =
    let rest = deserialize_retry_rows codec (serialize_prepared_rows codec rows) in
    ap (λ l. append_some (deserialize_row codec (plain codec r l)) rest) (tidy_labels_tidy r t.0)
    ∙ ap (λ o. append_some o rest) (deserialize_tidy codec laws r t.0)
    ∙ ap (λ rs. r ∷ rs) (deserialize-serialize codec rows laws t.1)
