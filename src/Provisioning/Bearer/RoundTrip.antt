-- ===== src/Provisioning/Bearer/RoundTrip.antt =====
-- What `_process_notify` makes of the segments that `_wrap_provisioning_pdu` cuts.
use tuya_ble_mesh.Prelude.{
  ℕ, zero, suc, ◌+◌, ◌-◌, ◌≤◌, ◌<◌, ◌≡◌, refl, sym, ap, ◌∙◌, arith, true, List, [], ◌∷◌, ◌++◌, ok,
}
use tuya_ble_mesh.Prelude.{
  length, take, drop, All, append_assoc, append-nil, length-take, length-drop, take-append-drop,
  le_or_lt, inl, inr,
}
use tuya_ble_mesh.Bytes.{Bytes}
use tuya_ble_mesh.Provisioning.Bearer.{
  with_sar, chunk_loop, sar_at, wrap_chunks, wrap_multi, wrap_provisioning_pdu,
}
use tuya_ble_mesh.Provisioning.Bearer.{Received, receive_sar, receive_notification, receive_all}

abbrev concat : List Bytes → Bytes
concat [] = []
concat (c ∷ cs) = c ++ concat cs

chunk_loop_next :
    (fuel m b : ℕ) (pdu : Bytes)
    → chunk_loop (suc fuel) m (b ∷ pdu) ≡ take m (b ∷ pdu) ∷ chunk_loop fuel m (drop m (b ∷ pdu))
unfolding chunk_loop
chunk_loop_next fuel m b pdu = ground arith

concat-chunk_loop :
    (fuel m : ℕ) (pdu : Bytes) → 0 < m → length pdu ≤ fuel → concat (chunk_loop fuel m pdu) ≡ pdu
unfolding chunk_loop
concat-chunk_loop zero m [] hm h = refl
concat-chunk_loop zero m (b ∷ pdu) hm h = absurd (omega arith)
concat-chunk_loop (suc fuel) m [] hm h = refl
concat-chunk_loop (suc fuel) m (b ∷ pdu) hm h =
    ap concat (chunk_loop_next fuel m b pdu)
    ∙ ap (take m (b ∷ pdu) ++◌)
        (concat-chunk_loop fuel m (drop m (b ∷ pdu)) hm (omega (arith, length-drop m (b ∷ pdu))))
    ∙ take-append-drop m (b ∷ pdu)

-- Every segment fits: at most so many bytes behind the header.
chunks-fit : (fuel m : ℕ) (pdu : Bytes) → All (λ c. length c ≤ m) (chunk_loop fuel m pdu)
unfolding chunk_loop
chunks-fit zero m pdu = tt
chunks-fit (suc fuel) m [] = tt
chunks-fit (suc fuel) m (b ∷ pdu) =
    rw (chunk_loop_next fuel m b pdu)
      (omega (arith, length-take m (b ∷ pdu)), chunks-fit fuel m (drop m (b ∷ pdu)))

sar-last : (i count : ℕ) → 0 < i → i + 1 ≡ count → sar_at i count ≡ 3
unfolding sar_at
sar-last i count hi h = ground arith

sar-middle : (i count : ℕ) → 0 < i → i + 1 < count → sar_at i count ≡ 2
unfolding sar_at
sar-middle i count hi h = ground arith

-- The last segment of a message and those before it, on what the buffer holds.
receive-rest :
    (i count : ℕ) (chunk : Bytes) (chunks : List Bytes) (r : Received)
    → 0 < i
    → i + suc (length chunks) ≡ count
    → ((receive_all r (wrap_chunks i count (chunk ∷ chunks))).rx_buffer
        ≡ r.rx_sar_buffer ++ concat (chunk ∷ chunks))
      × ((receive_all r (wrap_chunks i count (chunk ∷ chunks))).rx_event ≡ true)
unfolding receive_all wrap_chunks receive_notification receive_sar
receive-rest i count chunk [] r hi h =
    let last : sar_at i count ≡ 3 = sar-last i count hi (omega arith) in
    rw last (ap (r.rx_sar_buffer ++◌) (sym (append-nil chunk)), refl)
receive-rest i count chunk (c ∷ cs) r hi h =
    let middle : sar_at i count ≡ 2 = sar-middle i count hi (omega arith) in
    let more =
      receive-rest (i + 1) count c cs (record r { rx_sar_buffer = r.rx_sar_buffer ++ chunk })
        (omega arith) (omega arith) in
    rw middle (more.0 ∙ append_assoc r.rx_sar_buffer chunk (concat (c ∷ cs)), more.1)

-- At least two chunks of a message that is longer than one.
abbrev Several : List Bytes → Type 0
Several chunks =
    (first : Bytes) × (second : Bytes) × (rest : List Bytes) × (chunks ≡ first ∷ second ∷ rest)

chunk_loop-Several :
    (m : ℕ) (pdu : Bytes) → 0 < m → m < length pdu → Several (chunk_loop (length pdu) m pdu)
chunk_loop-Several m [] hm h = absurd (omega arith)
chunk_loop-Several m (a ∷ []) hm h = absurd (omega arith)
chunk_loop-Several m (a ∷ b ∷ pdu) hm h = again (drop m (a ∷ b ∷ pdu)) refl
  where
    again :
        (rest : Bytes)
        → drop m (a ∷ b ∷ pdu) ≡ rest
        → Several (chunk_loop (length (a ∷ b ∷ pdu)) m (a ∷ b ∷ pdu))
    again [] e = absurd (omega (arith, length-drop m (a ∷ b ∷ pdu), ap length e))
    again (c ∷ rest) e = (
      take m (a ∷ b ∷ pdu),
      take m (c ∷ rest),
      chunk_loop (length pdu) m (drop m (c ∷ rest)),
      chunk_loop_next (length (b ∷ pdu)) m a (b ∷ pdu)
          ∙ rw e (ap (take m (a ∷ b ∷ pdu) ∷◌) (chunk_loop_next (length pdu) m c rest)),
    )

receive-wrap_multi :
    (chunks : List Bytes) (r : Received)
    → Several chunks
    → ((receive_all r (wrap_multi chunks)).rx_buffer ≡ concat chunks)
      × ((receive_all r (wrap_multi chunks)).rx_event ≡ true)
unfolding wrap_multi wrap_chunks receive_all receive_notification receive_sar sar_at
receive-wrap_multi chunks r (first, second, rest, e) =
    let more =
      receive-rest 1 (length (first ∷ second ∷ rest)) second rest
        (record r { rx_sar_buffer = first }) (omega arith) (omega arith) in
    rw e more

wrap_chunks-fit :
    (i count m : ℕ) (chunks : List Bytes)
    → All (λ c. length c ≤ m) chunks
    → All (λ c. length c ≤ m + 1) (wrap_chunks i count chunks)
unfolding wrap_chunks
wrap_chunks-fit i count m [] h = tt
wrap_chunks-fit i count m (c ∷ cs) (here, h) = (omega arith, wrap_chunks-fit (i + 1) count m cs h)

-- For every MTU above 4: the wrapping of a PDU returns segments of at most `mtu - 3` bytes, and the receiver that is notified of
-- them one by one, whatever it held before, sets its event and holds exactly the PDU.
pub receive_all-wrap_provisioning_pdu :
    (pdu : Bytes) (mtu : ℕ) (r : Received)
    → 4 < mtu
    → (segments : List Bytes) × (wrap_provisioning_pdu pdu mtu ≡ ok segments)
      × (All (λ s. length s ≤ mtu - 4 + 1) segments)
      × ((receive_all r segments).rx_buffer ≡ pdu)
      × ((receive_all r segments).rx_event ≡ true)
unfolding wrap_provisioning_pdu wrap_multi receive_all receive_notification receive_sar
receive_all-wrap_provisioning_pdu pdu mtu r h = elim (le_or_lt (length pdu) (mtu - 4)) [
  | inl short ↦ (with_sar 0x00 pdu ∷ [], ground (arith, h, short), (omega arith, tt), refl, refl)
  | inr long ↦
      let chunks = chunk_loop (length pdu) (mtu - 4) pdu in
      let got = receive-wrap_multi chunks r (chunk_loop-Several (mtu - 4) pdu (omega arith) long) in
      (
        wrap_multi chunks,
        ground (arith, h, long),
        wrap_chunks-fit 0 (length chunks) (mtu - 4) chunks (chunks-fit (length pdu) (mtu - 4) pdu),
        got.0 ∙ concat-chunk_loop (length pdu) (mtu - 4) pdu (omega arith) (omega arith),
        got.1,
      )
]
