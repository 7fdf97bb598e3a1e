-- ===== src/Checks/ConflictingListeners.antt =====
-- pkg/templates/conflictinglisteners
pub mod Protocols
pub mod Clash
use gwlint.Prelude.{
  String, Option, none, some, List, [], ◌∷◌, ◌++◌, Bool, true, false, not, ◌==◌, ◌&&◌, ◌||◌, Eq,
  ◌≡◌, ◌↔◌, arith, or_else, map, filter, filter_map, flat_map, get, push_all, if◌then◌else◌,
  str_less, sort, sort_strings, Diagnostic, Text, lit, quoted, int, ℤ, int_eq, int_less,
}
use gwlint.Prelude.Tests.{string_eq}
use gwlint.Prelude.Quoting.{quoted_less}
use gwlint.Prelude.Pairs.{several}
use gwlint.Api.{LintContext, Object}
use gwlint.ObjectKinds
use gwlint.GatewayApi.Parent.{Listener, listeners_of}

pub record ListenerKey : Type 0 where
  pub protocol : String
  pub hostname : String

abbrev pub listener_key_beq : ListenerKey → ListenerKey → Bool
listener_key_beq a b = a.protocol == b.protocol && a.hostname == b.hostname

pub listener_key_beq_iff : (a b : ListenerKey) → (listener_key_beq a b ≡ true) ↔ (a ≡ b)
listener_key_beq_iff a b =
    ground (arith, string_eq.beq_iff a.protocol b.protocol, string_eq.beq_iff a.hostname b.hostname)

instance abbrev pub listener_key_eq : Eq ListenerKey
listener_key_eq = record { beq = listener_key_beq; beq_iff = listener_key_beq_iff }

abbrev pub key_of : Listener → ListenerKey
key_of l = record { protocol = l.protocol; hostname = or_else l.hostname "" }

-- The order of sort.Slice on the keys.
abbrev pub key_less : ListenerKey → ListenerKey → Bool
key_less a b =
    if not (a.protocol == b.protocol)
    then str_less a.protocol b.protocol
    else str_less a.hostname b.hostname

-- All names but the last joined by commas, and then the last.
abbrev enumerate : List String → Text
enumerate [] = []
enumerate (a ∷ []) = quoted a ∷ []
enumerate (a ∷ b ∷ []) = quoted a ∷ lit " and " ∷ quoted b ∷ []
enumerate (a ∷ b ∷ c ∷ names) = quoted a ∷ lit ", " ∷ enumerate (b ∷ c ∷ names)

abbrev list_names : List String → Text
list_names [] = []
list_names (a ∷ []) = lit "listener " ∷ quoted a ∷ []
list_names (a ∷ b ∷ names) = lit "listeners " ∷ enumerate (a ∷ b ∷ names)

unfoldable pub listener_names : List Listener → Text
unfolding quoted_less
listener_names listeners = list_names (sort quoted_less (map (λ l. l.name) listeners))

abbrev pub describe_hostname : String → Text
describe_hostname hostname =
    if hostname == ""
    then lit "no hostname, so they match every request" ∷ []
    else lit "hostname " ∷ quoted hostname ∷ []

unfoldable pub uses_hostname : String → Bool
uses_hostname p =
    p == ObjectKinds.http_protocol
    || (p == ObjectKinds.https_protocol || p == ObjectKinds.tls_protocol)

pub data ProtocolClass : Type 0 where
  unknown plaintext tls raw_tcp udp : ProtocolClass

unfoldable pub class_of : String → ProtocolClass
class_of p =
    if p == ObjectKinds.http_protocol
    then plaintext
    else if p == ObjectKinds.https_protocol || p == ObjectKinds.tls_protocol
    then tls
    else if p == ObjectKinds.tcp_protocol
    then raw_tcp
    else if p == ObjectKinds.udp_protocol
    then udp
    else unknown

abbrev pub class_beq : ProtocolClass → ProtocolClass → Bool
class_beq unknown unknown = true
class_beq plaintext plaintext = true
class_beq tls tls = true
class_beq raw_tcp raw_tcp = true
class_beq udp udp = true
class_beq _ _ = false

-- The `!=` of two Booleans.
abbrev differ : Bool → Bool → Bool
differ true b = not b
differ false b = b

unfoldable pub classes_conflict : ProtocolClass → ProtocolClass → Option String
classes_conflict a b =
    if class_beq a unknown || class_beq b unknown
    then none
    else if differ (class_beq a udp) (class_beq b udp)
    then none
    else if class_beq a raw_tcp || class_beq b raw_tcp
    then some
        "a listener sharing a port with a raw TCP listener cannot be told apart from it, so neither of them is accepted and the port serves nothing"
    else if class_beq a plaintext || class_beq b plaintext
    then some
        "one port cannot carry both plaintext and TLS traffic, so neither listener is accepted and the port serves nothing"
    else none

unfoldable pub protocols_conflict : String → String → Option String
unfolding class_of classes_conflict
protocols_conflict a b = classes_conflict (class_of a) (class_of b)

abbrev pub indistinct_message : Listener → ℤ → ListenerKey → List Listener → Diagnostic
indistinct_message owner port key ls = record {
  message =
      if not (key.hostname == "") || uses_hostname key.protocol
      then lit owner.owner_kind
        ∷ lit " "
        ∷ quoted owner.owner.name
        ∷ lit " has "
        ∷ (listener_names ls
            ++ (lit " on port "
                ∷ int port
                ∷ lit ", each with protocol "
                ∷ lit key.protocol
                ∷ lit " and "
                ∷ (describe_hostname key.hostname
                    ++ lit
                        "; port, protocol and hostname together must identify one listener, so none of them is distinct and none is accepted"
                      ∷ [])))
      else lit owner.owner_kind
        ∷ lit " "
        ∷ quoted owner.owner.name
        ∷ lit " has "
        ∷ (listener_names ls
            ++ (lit " on port "
                ∷ int port
                ∷ lit ", each with protocol "
                ∷ lit key.protocol
                ∷ lit
                    ", which carries no hostname to tell them apart; none of them is distinct and none is accepted"
                ∷ []));
}

-- The keys that several listeners of the group have, in order.
unfoldable pub repeated_keys : List Listener → List ListenerKey
unfolding str_less
repeated_keys group =
    sort key_less (map (λ e. e.0) (filter (λ e. several e.1) (push_all key_of group [])))

unfoldable pub indistinct_listeners : Listener → ℤ → List Listener → List Diagnostic
indistinct_listeners owner port group =
    map (λ key. indistinct_message owner port key (get key (push_all key_of group [])))
      (repeated_keys group)

abbrev pub conflict_message : Listener → ℤ → List Listener → String → String → String → Diagnostic
conflict_message owner port group a b reason = record {
  message =
      lit owner.owner_kind
      ∷ lit " "
      ∷ quoted owner.owner.name
      ∷ lit " has "
      ∷ (listener_names (get a (push_all (λ l. l.protocol) group []))
          ++ (lit " with protocol "
              ∷ lit a
              ∷ lit " and "
              ∷ (listener_names (get b (push_all (λ l. l.protocol) group []))
                  ++ lit " with protocol "
                    ∷ lit b
                    ∷ lit " on port "
                    ∷ int port
                    ∷ lit "; "
                    ∷ lit reason
                    ∷ [])));
}

-- The protocols of the group, in order.
unfoldable pub protocols_of : List Listener → List String
protocols_of group = sort_strings (map (λ e. e.0) (push_all (λ l. l.protocol) group []))

abbrev pub judge_pair : Listener → ℤ → List Listener → String → String → Option Diagnostic
judge_pair owner port group a b = elim (protocols_conflict a b) [
  | none ↦ none
  | some reason ↦ some (conflict_message owner port group a b reason)
]

-- The two loops over the pairs.
unfoldable pub judge_pairs : Listener → ℤ → List Listener → List String → List Diagnostic
judge_pairs owner port group [] = []
judge_pairs owner port group (a ∷ ps) =
    filter_map (judge_pair owner port group a) ps ++ judge_pairs owner port group ps

unfoldable pub protocol_conflicts : Listener → ℤ → List Listener → List Diagnostic
protocol_conflicts owner port group = judge_pairs owner port group (protocols_of group)

-- The body of the loop over the ports.
unfoldable pub judge_group : Listener → ℤ → List Listener → List Diagnostic
judge_group owner port group =
    if not (several group)
    then []
    else indistinct_listeners owner port group ++ protocol_conflicts owner port group

unfoldable pub ports_of : List Listener → List ℤ
ports_of listeners = sort int_less (map (λ e. e.0) (push_all (λ l. l.port) listeners []))

unfoldable pub judge : Listener → List Listener → List Diagnostic
judge owner listeners =
    flat_map (λ port. judge_group owner port (get port (push_all (λ l. l.port) listeners [])))
      (ports_of listeners)

-- `listeners[0]` is the owner; below two listeners there is nothing to compare.
abbrev pub judge_listeners : List Listener → List Diagnostic
judge_listeners [] = []
judge_listeners (l ∷ []) = []
judge_listeners (l ∷ m ∷ ls) = judge l (l ∷ m ∷ ls)

unfoldable pub check_func : LintContext → Object → List Diagnostic
check_func ctx object = judge_listeners (listeners_of object.k8s_object)
