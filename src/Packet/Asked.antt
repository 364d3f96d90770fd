-- ===== src/Packet/Asked.antt =====
-- Which packet a header asks for, by the numbers of its type and count.
use rtcp.Prelude.{false, ◌==◌, ℕ, ◌≡◌, ◌≢◌, arith}
use native.Mathlib.Decide.{ℕ_discrete}
use rtcp.Header.{Header}
use rtcp.Packet.{
  Kind, kind_sender_report, kind_receiver_report, kind_source_description, kind_goodbye, kind_nack,
  kind_rrr, kind_tcc, kind_pli, kind_sli, kind_remb, kind_raw, kind_of, transport_kind,
  payload_kind,
}

differs : {m n : ℕ} → m ≢ n → (m == n) ≡ false
differs {m} {n} ne = ground (arith, ne)

-- A type and a count for which there is no Go type of its own.
pub data Unknown : ℕ → ℕ → Type 0 where
  other_type :
      (type count : ℕ)
      → type ≢ 200
      → type ≢ 201
      → type ≢ 202
      → type ≢ 203
      → type ≢ 205
      → type ≢ 206
      → Unknown type count
  other_transport : (count : ℕ) → count ≢ 1 → count ≢ 5 → count ≢ 15 → Unknown 205 count
  other_payload : (count : ℕ) → count ≢ 1 → count ≢ 2 → count ≢ 15 → Unknown 206 count

-- What a type and a count of a header ask for, by the numbers of the RFCs.
pub data Asks : ℕ → ℕ → Kind → Type 0 where
  asks_sender_report : (count : ℕ) → Asks 200 count kind_sender_report
  asks_receiver_report : (count : ℕ) → Asks 201 count kind_receiver_report
  asks_source_description : (count : ℕ) → Asks 202 count kind_source_description
  asks_goodbye : (count : ℕ) → Asks 203 count kind_goodbye
  asks_nack : Asks 205 1 kind_nack
  asks_rrr : Asks 205 5 kind_rrr
  asks_tcc : Asks 205 15 kind_tcc
  asks_pli : Asks 206 1 kind_pli
  asks_sli : Asks 206 2 kind_sli
  asks_remb : Asks 206 15 kind_remb
  asks_raw : (type count : ℕ) → Unknown type count → Asks type count kind_raw

transport-Asks : (count : ℕ) → Asks 205 count (transport_kind count)
unfolding transport_kind
transport-Asks count = elim (ℕ_discrete count 1) [
  | yes e ↦ rw e asks_nack
  | no n1 ↦ elim (ℕ_discrete count 5) [
    | yes e ↦ rw e asks_rrr
    | no n5 ↦ elim (ℕ_discrete count 15) [
      | yes e ↦ rw e asks_tcc
      | no n15 ↦
          rw (differs n1, differs n5, differs n15)
            (asks_raw 205 count (other_transport count n1 n5 n15))
    ]
  ]
]

payload-Asks : (count : ℕ) → Asks 206 count (payload_kind count)
unfolding payload_kind
payload-Asks count = elim (ℕ_discrete count 1) [
  | yes e ↦ rw e asks_pli
  | no n1 ↦ elim (ℕ_discrete count 2) [
    | yes e ↦ rw e asks_sli
    | no n2 ↦ elim (ℕ_discrete count 15) [
      | yes e ↦ rw e asks_remb
      | no n15 ↦
          rw (differs n1, differs n2, differs n15)
            (asks_raw 206 count (other_payload count n1 n2 n15))
    ]
  ]
]

pub kind_of-Asks : (h : Header) → Asks h.type h.count (kind_of h)
unfolding kind_of
kind_of-Asks h = elim (ℕ_discrete h.type 200) [
  | yes e ↦ rw e (asks_sender_report h.count)
  | no n0 ↦ elim (ℕ_discrete h.type 201) [
    | yes e ↦ rw e (asks_receiver_report h.count)
    | no n1 ↦ elim (ℕ_discrete h.type 202) [
      | yes e ↦ rw e (asks_source_description h.count)
      | no n2 ↦ elim (ℕ_discrete h.type 203) [
        | yes e ↦ rw e (asks_goodbye h.count)
        | no n3 ↦ elim (ℕ_discrete h.type 205) [
          | yes e ↦ rw e (transport-Asks h.count)
          | no n5 ↦ elim (ℕ_discrete h.type 206) [
            | yes e ↦ rw e (payload-Asks h.count)
            | no n6 ↦
                rw (differs n0, differs n1, differs n2, differs n3, differs n5, differs n6)
                  (asks_raw h.type h.count (other_type h.type h.count n0 n1 n2 n3 n5 n6))
          ]
        ]
      ]
    ]
  ]
]
