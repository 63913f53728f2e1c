-- ===== src/RoCommLink/Router.antt =====
-- The routing table of src/core/service/rocommlink.cpp: `add_routing_rule` and
-- `determine_routing_target`.
use knowledge_acquisition.Prelude.{
  ℕ, ◌*◌, ◌≡◌, refl, arith, bit_or, bit_or_bytes, ◌&&◌, Option, none, some, List, [], ◌∷◌, ◌==◌,
  if◌then◌else◌, IsByte, lookup, insert, lookup-insert,
}

abbrev pub default_broadcast_interface : ℕ
default_broadcast_interface = 0

-- `(system_id << 8) | component_id`.
unfoldable pub compound_key : ℕ → ℕ → ℕ
compound_key system_id component_id = bit_or (system_id * 256) component_id

abbrev pub RoutingTable : Type 0
RoutingTable = List (ℕ × ℕ)

unfoldable pub add_routing_rule : ℕ → ℕ → ℕ → RoutingTable → RoutingTable
add_routing_rule target_sys_id target_comp_id out_interface_id table =
    insert (compound_key target_sys_id target_comp_id) out_interface_id table

unfoldable pub determine_routing_target : RoutingTable → ℕ → ℕ → ℕ
determine_routing_target table system_id component_id =
    elim (lookup (compound_key system_id component_id) table) [
      | some interface_id ↦ interface_id
      | none ↦ elim (lookup (compound_key system_id 0) table) [
        | some interface_id ↦ interface_id
        | none ↦ default_broadcast_interface
      ]
    ]

-- The table as a history of rules, the latest first: what the code promises.
abbrev pub Rules : Type 0
Rules = List (ℕ × ℕ × ℕ)

-- The latest rule for exactly this target.
abbrev pub rule_for : ℕ → ℕ → Rules → Option ℕ
rule_for sys comp [] = none
rule_for sys comp ((s, c, i) ∷ rules) =
    if (s == sys) && (c == comp) then some i else rule_for sys comp rules

abbrev pub or_else : Option ℕ → ℕ → ℕ
or_else none d = d
or_else (some i) d = i

-- The latest rule for the component, or for the system's component 0, or the default interface.
abbrev pub route : Rules → ℕ → ℕ → ℕ
route rules sys comp =
    or_else (rule_for sys comp rules) (or_else (rule_for sys 0 rules) default_broadcast_interface)

pub build : Rules → RoutingTable
build [] = []
build ((s, c, i) ∷ rules) = add_routing_rule s c i (build rules)

abbrev pub AreBytes : Rules → Type 0
AreBytes [] = Unit {0}
AreBytes ((s, c, i) ∷ rules) = IsByte s × IsByte c × AreBytes rules

-- Two targets have one key only if they are the same.
pub compound_key-injective :
    (s c t d : ℕ) → IsByte c → IsByte d → compound_key s c ≡ compound_key t d → (s ≡ t) × (c ≡ d)
unfolding compound_key
compound_key-injective s c t d hc hd e =
    let l = bit_or_bytes s c hc in let r = bit_or_bytes t d hd in (omega arith, omega arith)

key_test :
    (s c t d : ℕ)
    → IsByte c
    → IsByte d
    → (compound_key s c == compound_key t d) ≡ ((s == t) && (c == d))
key_test s c t d hc hd = ground (arith, compound_key-injective s c t d hc hd)

lookup-build :
    (rules : Rules) (sys comp : ℕ)
    → IsByte comp
    → AreBytes rules
    → lookup (compound_key sys comp) (build rules) ≡ rule_for sys comp rules
unfolding build add_routing_rule
lookup-build [] sys comp hc h = refl
lookup-build ((s, c, i) ∷ rules) sys comp hc (hs, hcc, h) = ground (
  arith,
  lookup-insert (compound_key s c) (compound_key sys comp) i (build rules),
  key_test s c sys comp hcc hc,
  lookup-build rules sys comp hc h,
)

-- After any history of rules, with systems and components that are bytes, the router follows the
-- latest rule for the target itself, failing that the latest rule for component 0 of its system, and
-- failing that the default interface.
pub determine_routing_target-route :
    (rules : Rules) (sys comp : ℕ)
    → IsByte comp
    → AreBytes rules
    → determine_routing_target (build rules) sys comp ≡ route rules sys comp
unfolding determine_routing_target
determine_routing_target-route rules sys comp hc h =
    ground (arith, lookup-build rules sys comp hc h, lookup-build rules sys 0 (omega arith) h)
