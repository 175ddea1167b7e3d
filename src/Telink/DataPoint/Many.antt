-- ===== src/Telink/DataPoint/Many.antt =====
-- Many data points: `encode_dps_command` and `decode_dps_response`.
use tuya_ble_mesh.Prelude.{ℕ, zero, suc, ◌+◌, ◌≤◌, ◌<◌, ◌≡◌, refl, ◌∙◌, arith}
use tuya_ble_mesh.Prelude.{List, [], ◌∷◌, ◌++◌, ok, length, Option, none, some, not-lt→ltb}
use tuya_ble_mesh.Prelude.{inl, inr, Bool-cases}
use tuya_ble_mesh.Prelude.{length-append, take-append, drop-append, leb}
use tuya_ble_mesh.Prelude.Dict.{lookup, insert, Distinct, lookup-insert}
use tuya_ble_mesh.Bytes.{Bytes}
use tuya_ble_mesh.Telink.DataPoint.{DpValue, Utf8, decode_loop, decode_dps_response}
use tuya_ble_mesh.Telink.DataPoint.{encode_each, encode_dps_command, sort_dps, insert_sorted}
use tuya_ble_mesh.Telink.DataPoint.Single.{Fits, tlv, value_bytes, encode_dp_value-tlv}
use tuya_ble_mesh.Telink.DataPoint.Single.{decode_dp_value-tlv, size_of-tlv}
use mathlib.Core.Logic.{ite}
use native.Mathlib.Decide.{ℕ_discrete}

module _ {Text : Type 0} (utf8 : Utf8 Text) where
  -- The keys and values that can be sent.
  abbrev pub AllFit : List (ℕ × DpValue Text) → Type 0
  AllFit [] = Unit {0}
  AllFit ((k, v) ∷ dps) = (1 ≤ k) × (k < 256) × Fits utf8 v × AllFit dps

  abbrev concat_tlv : List (ℕ × DpValue Text) → Bytes
  concat_tlv [] = []
  concat_tlv ((k, v) ∷ dps) = tlv utf8 k v ++ concat_tlv dps

  abbrev insert_all : List (ℕ × DpValue Text) → List (ℕ × DpValue Text) → List (ℕ × DpValue Text)
  insert_all [] d = d
  insert_all ((k, v) ∷ dps) d = insert_all dps (insert ℕ_discrete k v d)

  encode_each-concat_tlv :
      (dps : List (ℕ × DpValue Text)) → AllFit dps → encode_each utf8 dps ≡ ok (concat_tlv dps)
  unfolding encode_each
  encode_each-concat_tlv [] h = refl
  encode_each-concat_tlv ((k, v) ∷ dps) (lo, hi, fits, h) =
      rw (encode_dp_value-tlv utf8 k v lo hi fits, encode_each-concat_tlv dps h) refl

  decode_loop-concat_tlv :
      (dps d : List (ℕ × DpValue Text)) (fuel : ℕ)
      → AllFit dps
      → length (concat_tlv dps) ≤ fuel
      → decode_loop utf8 fuel (concat_tlv dps) d ≡ ok (insert_all dps d)
  unfolding decode_loop
  decode_loop-concat_tlv [] d zero h f = refl
  decode_loop-concat_tlv [] d (suc fuel) h f = refl
  decode_loop-concat_tlv ((k, v) ∷ dps) d zero h f = absurd (omega arith)
  decode_loop-concat_tlv ((k, v) ∷ dps) d (suc fuel) (lo, hi, fits, h) f =
      let n = length (value_bytes utf8 v) in
      let more = concat_tlv dps in
      let total = length-append (value_bytes utf8 v) more in
      let digits = size_of-tlv utf8 k v more fits in
      rw
        (
          not-lt→ltb (suc (suc (suc (suc (length (value_bytes utf8 v ++ more)))))) 4 (omega arith),
          digits,
          not-lt→ltb (suc (suc (suc (suc (length (value_bytes utf8 v ++ more)))))) (4 + n)
              (omega arith),
          take-append (4 + n) (tlv utf8 k v) more (omega arith),
          decode_dp_value-tlv utf8 k v fits,
          drop-append (4 + n) (tlv utf8 k v) more (omega arith),
        )
        (decode_loop-concat_tlv dps (insert ℕ_discrete k v d) fuel h (omega arith))

  -- `sorted` keeps every entry.
  lookup-insert_sorted :
      (j k : ℕ) (v : DpValue Text) (dps : List (ℕ × DpValue Text))
      → lookup ℕ_discrete j (insert_sorted utf8 k v dps)
        ≡ ite (ℕ_discrete k j) (some v) (lookup ℕ_discrete j dps)
  unfolding insert_sorted lookup
  lookup-insert_sorted j k v [] = refl
  lookup-insert_sorted j k v ((i, w) ∷ dps) = ground (arith, lookup-insert_sorted j k v dps)

  lookup-sort_dps :
      (j : ℕ) (dps : List (ℕ × DpValue Text))
      → lookup ℕ_discrete j (sort_dps utf8 dps) ≡ lookup ℕ_discrete j dps
  unfolding sort_dps lookup
  lookup-sort_dps j [] = refl
  lookup-sort_dps j ((k, v) ∷ dps) =
      rw (lookup-insert_sorted j k v (sort_dps utf8 dps), lookup-sort_dps j dps) refl

  insert_sorted-Distinct :
      (k : ℕ) (v : DpValue Text) (dps : List (ℕ × DpValue Text))
      → lookup ℕ_discrete k dps ≡ none
      → Distinct ℕ_discrete dps
      → Distinct ℕ_discrete (insert_sorted utf8 k v dps)
  unfolding insert_sorted lookup
  insert_sorted-Distinct k v [] f h = (refl, tt)
  insert_sorted-Distinct k v ((i, w) ∷ dps) f (g, h) =
      ground (arith, lookup-insert_sorted i k v dps, insert_sorted-Distinct k v dps)

  sort_dps-Distinct :
      (dps : List (ℕ × DpValue Text))
      → Distinct ℕ_discrete dps
      → Distinct ℕ_discrete (sort_dps utf8 dps)
  unfolding sort_dps
  sort_dps-Distinct [] h = tt
  sort_dps-Distinct ((k, v) ∷ dps) (g, h) =
      insert_sorted-Distinct k v (sort_dps utf8 dps) (lookup-sort_dps k dps ∙ g)
        (sort_dps-Distinct dps h)

  insert_sorted-AllFit :
      (k : ℕ) (v : DpValue Text) (dps : List (ℕ × DpValue Text))
      → 1 ≤ k
      → k < 256
      → Fits utf8 v
      → AllFit dps
      → AllFit (insert_sorted utf8 k v dps)
  unfolding insert_sorted
  insert_sorted-AllFit k v [] lo hi f h = (lo, hi, f, tt)
  insert_sorted-AllFit k v ((i, w) ∷ dps) lo hi f (lo', hi', f', h) = elim (Bool-cases (leb k i)) [
    | inl first ↦ rw first (lo, hi, f, (lo', hi', f', h))
    | inr later ↦ rw later (lo', hi', f', insert_sorted-AllFit k v dps lo hi f h)
  ]

  sort_dps-AllFit : (dps : List (ℕ × DpValue Text)) → AllFit dps → AllFit (sort_dps utf8 dps)
  unfolding sort_dps
  sort_dps-AllFit [] h = tt
  sort_dps-AllFit ((k, v) ∷ dps) (lo, hi, f, h) =
      insert_sorted-AllFit k v (sort_dps utf8 dps) lo hi f (sort_dps-AllFit dps h)

  abbrev or_else : Option (DpValue Text) → Option (DpValue Text) → Option (DpValue Text)
  or_else none o = o
  or_else (some v) o = some v

  -- Inserting entries whose keys differ adds them to what is there.
  lookup-insert_all :
      (j : ℕ) (dps d : List (ℕ × DpValue Text))
      → Distinct ℕ_discrete dps
      → lookup ℕ_discrete j (insert_all dps d)
        ≡ or_else (lookup ℕ_discrete j dps) (lookup ℕ_discrete j d)
  unfolding lookup
  lookup-insert_all j [] d h = refl
  lookup-insert_all j ((k, v) ∷ dps) d (g, h) =
      ground (
        arith,
        lookup-insert_all j dps (insert ℕ_discrete k v d) h,
        lookup-insert ℕ_discrete k j v d,
      )

  or_else-none : (o : Option (DpValue Text)) → or_else o none ≡ o
  or_else-none none = refl
  or_else-none (some v) = refl

  -- A dictionary of distinct data points with identifiers from 1 to 255 and values that fit is
  -- encoded, and decoding the bytes gives a dictionary with the same value under every key.
  pub decode-encode_dps_command :
      (dps : List (ℕ × DpValue Text))
      → Distinct ℕ_discrete dps
      → AllFit dps
      → (bytes : Bytes) × (encode_dps_command utf8 dps ≡ ok bytes)
        × (result : List (ℕ × DpValue Text)) × (decode_dps_response utf8 bytes ≡ ok result)
        × ((k : ℕ) → lookup ℕ_discrete k result ≡ lookup ℕ_discrete k dps)
  unfolding encode_dps_command decode_dps_response lookup
  decode-encode_dps_command dps h f =
      let sorted = sort_dps utf8 dps in
      (
        concat_tlv sorted,
        encode_each-concat_tlv sorted (sort_dps-AllFit dps f),
        insert_all sorted [],
        decode_loop-concat_tlv sorted [] (length (concat_tlv sorted)) (sort_dps-AllFit dps f)
            (omega arith),
        λ k.
            lookup-insert_all k sorted [] (sort_dps-Distinct dps h)
            ∙ or_else-none (lookup ℕ_discrete k sorted)
            ∙ lookup-sort_dps k dps,
      )
