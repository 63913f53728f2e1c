-- ===== src/RoCommLink/Parser/Step.antt =====
-- One byte keeps the invariant of `Shape`, and delivers only what the frame holds.
use knowledge_acquisition.Prelude.{
  ℕ, zero, suc, ◌*◌, ◌/◌, ◌%◌, ◌<◌, ◌≡◌, refl, sym, ap, ◌∙◌, arith, List, [], ◌∷◌, ◌++◌, ◌==◌,
  Bool-cases, ==_iff, inl, inr, IsU16, IsByte, length, bit_or, bit_or_bytes, set, length-set,
  append_assoc,
}
use knowledge_acquisition.RoCommLink.Packet.{Packet}
use knowledge_acquisition.RoCommLink.Serializer.{
  wire_header, calculate_checksum, high_byte, low_byte,
}
use knowledge_acquisition.RoCommLink.Parser.{
  Parser, State, parse_byte, execute_early_filter, resize,
}
use knowledge_acquisition.RoCommLink.Parser.Shape.{take, IsHigh, Inv, frame, Steps}

abbrev in_state : Parser → State → Parser
in_state p s = record p { state = s }

abbrev StepsIn : State → Type 0
StepsIn s =
    (p : Parser) (b : ℕ)
    → IsByte b
    → Inv (in_state p s)
    → Steps (in_state p s) b (parse_byte (in_state p s) b)

start-StepsIn : StepsIn State.wait_start_of_transmission
unfolding parse_byte
start-StepsIn p b hb (f, s, e, m) = ground arith

system-StepsIn : StepsIn State.wait_system_identifier
unfolding parse_byte
system-StepsIn p b hb (f, inl s, e, m) = ground arith
system-StepsIn p b hb (f, inr s, e, m) = ground arith

high-StepsIn : StepsIn State.wait_message_identifier_high_byte
unfolding parse_byte
high-StepsIn p b hb (f, s, e, m) = ground arith

-- A byte put in for the low byte of `w`.
module _ (w b : ℕ) (hw : IsHigh w) (hb : IsByte b) where
  low_joined :
      (high_byte (bit_or w b) ≡ high_byte w) × (low_byte (bit_or w b) ≡ b) × IsU16 (bit_or w b)
  low_joined =
      let e : w ≡ w / 256 * 256 = omega arith in
      rw e (rw (bit_or_bytes (w / 256) b hb) (omega arith, omega arith, omega arith))

IsHigh-fresh : (b : ℕ) → IsByte b → IsHigh (b * 256) × (high_byte (b * 256) ≡ b)
IsHigh-fresh b hb = omega arith

low-StepsIn : StepsIn State.wait_message_identifier_low_byte
unfolding parse_byte
low-StepsIn p b hb (f, inl s, e, m) = ground (arith, IsHigh-fresh b hb)
low-StepsIn p b hb (f, inr (n, w, s), e, m) =
    ground (arith, low_joined p.current_packet.header.msg_id b w hb)

length-resize : (n : ℕ) (xs : List ℕ) → length (resize n xs) ≡ n
length-resize zero xs = refl
length-resize (suc n) [] = omega (arith, length-resize n [])
length-resize (suc n) (x ∷ xs) = omega (arith, length-resize n xs)

length_zero : (xs : List ℕ) → xs ≡ [] → length xs ≡ 0
length_zero xs e = ap length e

length-StepsIn : StepsIn State.wait_payload_length
unfolding parse_byte execute_early_filter wire_header
length-StepsIn p b hb (f, inl s, e, m) = ground (arith, IsHigh-fresh b hb)
length-StepsIn p b hb (f, inr (inl (n, w, s)), e, m) =
    ground (arith, low_joined p.current_packet.header.sequence b w hb)
length-StepsIn p b hb (f, inr (inr (inl s)), e, m) = ground (arith, IsHigh-fresh b hb)
length-StepsIn p b hb (f, inr (inr (inr (n, w, s))), e, m) = ground (
  arith,
  low_joined p.current_packet.header.payload_len b w hb,
  length_zero p.current_packet.payload e,
  length-resize (bit_or p.current_packet.header.payload_len b % 256) p.current_packet.payload,
)

take-set :
    (xs : List ℕ) (n b : ℕ) → n < length xs → take (suc n) (set xs n b) ≡ take n xs ++ (b ∷ [])
take-set [] n b h = absurd (omega arith)
take-set (x ∷ xs) zero b h = refl
take-set (x ∷ xs) (suc n) b h = ap (◌∷◌ x) (take-set xs n b (omega arith))

take_all : (xs : List ℕ) → take (length xs) xs ≡ xs
take_all [] = refl
take_all (x ∷ xs) = ap (◌∷◌ x) (take_all xs)

data-StepsIn : StepsIn State.wait_payload_data
unfolding parse_byte
data-StepsIn p b hb (f, (lt, l, k, s), e, m) =
    let xs = p.current_packet.payload in
    let n = p.bytes_read in
    ground (
      arith,
      take-set xs n b,
      take_all (set xs n b),
      length-set xs n b,
      append_assoc (wire_header p.current_packet.header p.current_packet.header.payload_len)
          (take n xs) (b ∷ []),
    )

-- The two checksum bytes end the frame.
frame_closed :
    (k : Packet) (raw : List ℕ) (b : ℕ)
    → IsHigh k.checksum
    → IsByte b
    → raw ≡ wire_header k.header k.header.payload_len ++ k.payload
    → (raw ++ (high_byte k.checksum ∷ [])) ++ (b ∷ [])
      ≡ frame (record k { checksum = bit_or k.checksum b })
frame_closed k raw b w hb s =
    rw
      (
        append_assoc raw (high_byte k.checksum ∷ []) (b ∷ []),
        s,
        (low_joined k.checksum b w hb).0,
        (low_joined k.checksum b w hb).1,
      )
      refl

checksum-StepsIn : StepsIn State.wait_checksum_verification
unfolding parse_byte execute_early_filter
checksum-StepsIn p b hb (f, (inl n, k, s), e, m) = ground (arith, IsHigh-fresh b hb)
checksum-StepsIn p b hb (f, (inr (n, w), k, s), e, m) =
    let full : Packet = record p.current_packet { checksum = bit_or p.current_packet.checksum b } in
    elim (Bool-cases
      (calculate_checksum p.raw_frame_buffer == bit_or p.current_packet.checksum b)) [
        | inl t ↦
            rw (n, t)
              (
                (f, tt, tt, tt),
                inr refl,
                (
                  full,
                  refl,
                  (
                    frame_closed p.current_packet p.raw_frame_buffer b w hb s,
                    m,
                    k,
                    sym ((==_iff _ _).0 t) ∙ ap calculate_checksum s,
                  ),
                ),
              )
        | inr t ↦ rw (n, t) ((f, tt, tt, tt), inr refl, tt)
      ]

state_cases : (s : State) → StepsIn s
state_cases State.wait_start_of_transmission = start-StepsIn
state_cases State.wait_system_identifier = system-StepsIn
state_cases State.wait_message_identifier_high_byte = high-StepsIn
state_cases State.wait_message_identifier_low_byte = low-StepsIn
state_cases State.wait_payload_length = length-StepsIn
state_cases State.wait_payload_data = data-StepsIn
state_cases State.wait_payload_skip = λ p b hb v. absurd v.1
state_cases State.forward_active = λ p b hb v. absurd v.1
state_cases State.wait_checksum_verification = checksum-StepsIn

-- One byte in any state.
pub parse_byte-Steps : (p : Parser) (b : ℕ) → IsByte b → Inv p → Steps p b (parse_byte p b)
parse_byte-Steps p b hb v = state_cases p.state p b hb v
