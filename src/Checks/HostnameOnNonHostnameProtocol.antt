-- ===== src/Checks/HostnameOnNonHostnameProtocol.antt =====
-- pkg/templates/hostnameonnonhostnameprotocol
use gwlint.Prelude.{
  String, Option, none, some, List, [], ◌∷◌, not, ◌==◌, ◌||◌, filter_map, if◌then◌else◌, Diagnostic,
  lit, quoted, int,
}
use gwlint.Prelude.Tests.{string_eq}
use gwlint.Api.{LintContext, Object, meta_of}
use gwlint.ObjectKinds
use gwlint.GatewayApi.Parent.{GatewayListener, gateway_listeners_of}

abbrev pub message : String → GatewayListener → String → Diagnostic
message name listener hostname = record {
  message =
      lit "Gateway "
      ∷ quoted name
      ∷ lit " listener "
      ∷ quoted listener.name
      ∷ lit " sets hostname "
      ∷ quoted hostname
      ∷ lit " on protocol "
      ∷ lit listener.protocol
      ∷ lit
          ", which has neither SNI nor a Host header to match it; Gateway API ignores the hostname and the listener still admits every connection on port "
      ∷ int listener.port
      ∷ [];
}

abbrev pub judge_hostname : String → GatewayListener → Option String → Option Diagnostic
judge_hostname name listener none = none
judge_hostname name listener (some hostname) =
    if hostname == "" then none else some (message name listener hostname)

unfoldable pub judge : String → GatewayListener → Option Diagnostic
judge name listener =
    if not (
      listener.protocol == ObjectKinds.tcp_protocol
      || listener.protocol == ObjectKinds.udp_protocol)
    then none
    else judge_hostname name listener listener.hostname

unfoldable pub check_func : LintContext → Object → List Diagnostic
check_func ctx object = elim (gateway_listeners_of object.k8s_object) [
  | none ↦ []
  | some listeners ↦ filter_map (judge (meta_of object.k8s_object).name) listeners
]
