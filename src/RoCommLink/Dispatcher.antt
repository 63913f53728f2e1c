-- ===== src/RoCommLink/Dispatcher.antt =====
-- src/core/service/rocommlink_dispatcher.cpp: the callbacks of each message id. `C` is the type of
-- callbacks; `none` is an empty std::function. `dispatch` gives the callbacks that it calls, in
-- order, and its answer.
use knowledge_acquisition.Prelude.{
  ℕ, ◌≡◌, refl, arith, Bool, true, Option, none, some, List, [], ◌∷◌, ◌++◌, append_assoc,
  append-nil, ◌==◌, if◌then◌else◌, lookup, insert, lookup-insert,
}
use knowledge_acquisition.RoCommLink.Packet.{Packet}

abbrev pub Registry : Type 0 → Type 0
Registry C = List (ℕ × List (Option C))

module _ {C : Type 0} where
  abbrev pub or_empty : Option (List (Option C)) → List (Option C)
  or_empty none = []
  or_empty (some cs) = cs

  -- `_registry[msg_id]` makes an empty entry where there is none.
  unfoldable pub subscribe : ℕ → Option C → Registry C → Registry C
  subscribe msg_id callback registry =
      insert msg_id (or_empty (lookup msg_id registry) ++ (callback ∷ [])) registry

  unfoldable pub called : List (Option C) → List C
  called [] = []
  called (none ∷ cs) = called cs
  called (some c ∷ cs) = c ∷ called cs

  unfoldable pub dispatch : Registry C → Packet → List C × Bool
  unfolding called
  dispatch registry packet = elim (lookup packet.header.msg_id registry) [
    | none ↦ ([], true)
    | some cs ↦ (called cs, true)
  ]

  -- The registry that a sequence of subscriptions, the first one first, leaves.
  pub subscribe_all : List (ℕ × Option C) → Registry C → Registry C
  subscribe_all [] registry = registry
  subscribe_all ((msg_id, callback) ∷ more) registry =
      subscribe_all more (subscribe msg_id callback registry)

  -- What they subscribed for one message id.
  abbrev pub subscribed : ℕ → List (ℕ × Option C) → List (Option C)
  subscribed msg_id [] = []
  subscribed msg_id ((id, callback) ∷ more) =
      if id == msg_id then callback ∷ subscribed msg_id more else subscribed msg_id more

  -- The callbacks among them, in order.
  abbrev pub subscribers : ℕ → List (ℕ × Option C) → List C
  subscribers msg_id [] = []
  subscribers msg_id ((id, none) ∷ more) = subscribers msg_id more
  subscribers msg_id ((id, some callback) ∷ more) =
      if id == msg_id then callback ∷ subscribers msg_id more else subscribers msg_id more

  called-subscribed :
      (msg_id : ℕ) (more : List (ℕ × Option C))
      → called (subscribed msg_id more) ≡ subscribers msg_id more
  unfolding called
  called-subscribed msg_id [] = refl
  called-subscribed msg_id ((id, none) ∷ more) = ground (arith, called-subscribed msg_id more)
  called-subscribed msg_id ((id, some callback) ∷ more) =
      ground (arith, called-subscribed msg_id more)

  registered :
      (more : List (ℕ × Option C)) (msg_id : ℕ) (registry : Registry C)
      → or_empty (lookup msg_id (subscribe_all more registry))
        ≡ or_empty (lookup msg_id registry) ++ subscribed msg_id more
  unfolding subscribe_all subscribe
  registered [] msg_id registry = rw append-nil refl
  registered ((id, callback) ∷ more) msg_id registry = ground (
    arith,
    registered more msg_id (subscribe id callback registry),
    lookup-insert id msg_id (or_empty (lookup id registry) ++ (callback ∷ [])) registry,
    append_assoc (or_empty (lookup id registry)) (callback ∷ []) (subscribed id more),
  )

  -- After any sequence of subscriptions a packet is given to exactly the callbacks that were
  -- subscribed for its message id and are not empty, in the order of subscription; and `dispatch`
  -- answers true, also where it called none.
  pub dispatch-subscribe_all :
      (subscriptions : List (ℕ × Option C)) (packet : Packet)
      → dispatch (subscribe_all subscriptions []) packet
        ≡ (subscribers packet.header.msg_id subscriptions, true)
  unfolding dispatch
  dispatch-subscribe_all subscriptions packet = ground (
    arith,
    registered subscriptions packet.header.msg_id [],
    called-subscribed packet.header.msg_id subscriptions,
  )

  -- `dispatch` answers true whatever it finds.
  pub dispatch-true :
      (registry : Registry C) (packet : Packet) → (dispatch registry packet).1 ≡ true
  unfolding dispatch
  dispatch-true registry packet = ground arith
