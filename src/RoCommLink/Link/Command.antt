-- ===== src/RoCommLink/Link/Command.antt =====
-- A command and its acknowledgement, from one end to the other.
use knowledge_acquisition.Prelude.{
  ℕ, ◌<◌, ◌≡◌, refl, sym, ap, arith, ◌∙◌, Bool, true, none, some, List, [], ◌∷◌, ◌++◌, map, lookup,
  insert, inl, length, append-nil,
}
use knowledge_acquisition.RoCommLink.Packet.{
  Packet, CommandResult, result_byte, result_of, IsHeader, IsPacket,
}
use knowledge_acquisition.RoCommLink.Serializer.{serialize, ack_bytes}
use knowledge_acquisition.RoCommLink.Parser.{wait_start_of_transmission}
use knowledge_acquisition.RoCommLink.Parser.Header.{IsMagic}
use knowledge_acquisition.RoCommLink.Parser.RoundTrip.{stream, received}
use knowledge_acquisition.RoCommLink.Tracker.{resolve}
use knowledge_acquisition.RoCommLink.Router.{determine_routing_target}
use knowledge_acquisition.RoCommLink.Dispatcher.{dispatch, dispatch-true}
use knowledge_acquisition.RoCommLink.Link.{
  Link, ack_packet, read_ack, on_complete, on_command_ack, on_user_command, send_packet,
  process_raw_bytes, parser_of, msg_id_user_command, msg_id_command_ack, dispatched, emit,
}
use knowledge_acquisition.RoCommLink.Link.Stream.{complete_all, process_raw_bytes-stream}

ack_id : (k : Packet) (r : CommandResult) → (ack_packet k r).header.msg_id ≡ msg_id_command_ack
unfolding ack_packet
ack_id k r = refl

ack_magic : (k : Packet) (r : CommandResult) → IsMagic (ack_packet k r).header.magic
unfolding ack_packet
ack_magic k r = inl refl

short_ack : (k : Packet) (r : CommandResult) → length (ack_packet k r).payload < 256
unfolding ack_packet ack_bytes
short_ack k r = omega arith

head_range : (k : Packet) → IsPacket k → IsHeader (received k).header
head_range k v = record {
  magic = v.header.magic;
  version = v.header.version;
  system_id = v.header.system_id;
  component_id = v.header.component_id;
  msg_id = v.header.msg_id;
  sequence = v.header.sequence;
}

-- A byte that `result_of` reads back.
abbrev pub IsNamed : CommandResult → Type 0
IsNamed r = (result_byte r < 256) × (result_of (result_byte r) ≡ r)

ack_packet-IsPacket :
    (k : Packet) (r : CommandResult)
    → IsHeader k.header
    → result_byte r < 256
    → IsPacket (ack_packet k r)
unfolding ack_packet ack_bytes
ack_packet-IsPacket k r h n = record {
  header = record {
    magic = omega arith;
    version = omega arith;
    system_id = h.system_id;
    component_id = h.component_id;
    msg_id = omega arith;
    sequence = h.sequence;
  };
  payload = (omega arith, (omega arith, (omega arith, (omega arith, (n, tt)))));
}

read_ack_lem :
    (k : Packet) (r : CommandResult)
    → IsHeader k.header
    → read_ack (ack_packet k r).payload
      ≡ some (record {
        command_msg_id = k.header.msg_id;
        target_sequence = k.header.sequence;
        result = result_byte r;
      })
unfolding ack_packet ack_bytes
read_ack_lem k r h = ground (arith, h.msg_id, h.sequence)

module _ {C : Type 0} (accepts : ℕ → List ℕ → Bool) where
  -- One serialized packet as a buffer.
  process_one :
      (k : Packet) (id : ℕ) (l : Link C)
      → (parser_of (lookup id l.parsers)).state ≡ wait_start_of_transmission
      → (parser_of (lookup id l.parsers)).early_filter_cb ≡ none
      → IsMagic k.header.magic
      → IsPacket k
      → length k.payload < 256
      → (l' : Link C) × (process_raw_bytes accepts (serialize k) id l ≡ some l')
        × (l'.tracker ≡ (on_complete accepts (received k) l).tracker)
        × (l'.sent ≡ (on_complete accepts (received k) l).sent)
        × (l'.calls ≡ (on_complete accepts (received k) l).calls)
  unfolding stream complete_all
  process_one k id l e f m v short =
      let (q, r, s, t) =
        process_raw_bytes-stream accepts ([], k) [] id l e f ((tt, m, v, short), tt) in
      let done = on_complete accepts (received k) l in
      (
        record done { parsers = insert id q done.parsers },
        ap (λ (bs : List ℕ). process_raw_bytes accepts bs id l) (sym (append-nil (serialize k)))
            ∙ r,
        refl,
        refl,
        refl,
      )

  -- A command that is complete reaches its callbacks, and its acknowledgement goes to the
  -- transport of the command's own address.
  abbrev answered : Packet → Link C → Link C
  answered k l =
      emit (determine_routing_target l.routing_table k.header.system_id k.header.component_id)
        (serialize (ack_packet k CommandResult.accepted)) (dispatched k l)

  sent_back :
      (k : Packet) (l : Link C)
      → lookup
          (determine_routing_target l.routing_table k.header.system_id k.header.component_id)
          l.transports
        ≡ some true
      → (send_packet accepts (ack_packet k CommandResult.accepted) (dispatched k l)).0
        ≡ answered k l
  unfolding send_packet ack_packet
  sent_back k l t = rw (t, send_packet) refl

  on_complete_command :
      (k : Packet) (l : Link C)
      → k.header.msg_id ≡ msg_id_user_command
      → lookup
          (determine_routing_target l.routing_table k.header.system_id k.header.component_id)
          l.transports
        ≡ some true
      → on_complete accepts k l ≡ answered k l
  unfolding on_complete on_user_command
  on_complete_command k l e t = ground (arith, sent_back k l t, dispatch-true l.registry k)

  on_complete_ack :
      (k : Packet) (r : CommandResult) (l : Link C)
      → IsHeader k.header
      → IsNamed r
      → (on_complete accepts (received (ack_packet k r)) l).tracker
        ≡ resolve k.header.sequence r l.tracker
  unfolding on_complete on_command_ack
  on_complete_ack k r l h n = rw (ack_id k r, read_ack_lem k r h, on_command_ack, n.1) refl

  -- The two ends of a command. `a` sent the command packet `k`; `b` gets its bytes on connection
  -- `idb` and has a transport for the packet's address; `a` gets what `b` then sent on connection
  -- `ida`. Both connections' parsers wait for a frame and have no filter; `k` has the message id of
  -- commands, one of the two magic bytes, fields in range and less than 256 payload bytes. Then `b` calls every callback for the command, and
  -- sends one buffer; with this buffer `a` settles exactly the transaction of `k`'s sequence
  -- number, as accepted.
  pub command_acknowledged :
      (k : Packet) (ida idb : ℕ) (a b : Link C)
      → (parser_of (lookup idb b.parsers)).state ≡ wait_start_of_transmission
      → (parser_of (lookup idb b.parsers)).early_filter_cb ≡ none
      → (parser_of (lookup ida a.parsers)).state ≡ wait_start_of_transmission
      → (parser_of (lookup ida a.parsers)).early_filter_cb ≡ none
      → IsMagic k.header.magic
      → IsPacket k
      → length k.payload < 256
      → k.header.msg_id ≡ msg_id_user_command
      → lookup
          (determine_routing_target b.routing_table k.header.system_id k.header.component_id)
          b.transports
        ≡ some true
      → (b' : Link C) × (ack : List ℕ) × (a' : Link C) × (process_raw_bytes accepts
            (serialize k)
            idb
            b
          ≡ some b')
        × (b'.calls ≡ b.calls ++ map (λ c. (c, received k)) (dispatch b.registry (received k)).0)
        × (b'.sent
            ≡ b.sent
              ++ ((
                determine_routing_target b.routing_table k.header.system_id k.header.component_id,
                ack,
              )
                  ∷ []))
        × (process_raw_bytes accepts ack ida a ≡ some a')
        × (a'.tracker ≡ resolve k.header.sequence CommandResult.accepted a.tracker)
  command_acknowledged k ida idb a b eb fb ea fa m v short i t =
      let (b', pb, tb, sb, cb) = process_one k idb b eb fb m v short in
      let reply = ack_packet (received k) CommandResult.accepted in
      let answer = on_complete_command (received k) b i t in
      let (a', pa, ta, sa, ca) =
        process_one reply ida a ea fa (ack_magic (received k) _)
          (ack_packet-IsPacket (received k) _ (head_range k v) (omega arith))
          (short_ack (received k) _) in
      (
        b',
        serialize reply,
        a',
        pb,
        cb ∙ ap (λ (l : Link C). l.calls) answer,
        sb ∙ ap (λ (l : Link C). l.sent) answer,
        pa,
        ta
            ∙ on_complete_ack (received k) CommandResult.accepted a (head_range k v)
                (omega arith, refl),
      )
