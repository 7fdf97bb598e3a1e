-- ===== src/Lib.antt =====
-- gwlint lints Kubernetes Gateway API manifests. It reads every manifest of a set into one lint
-- context (pkg/command/lint), gives the objects a common form (pkg/gatewayapi), and runs checks
-- (pkg/templates), each of which takes the context and one object and returns diagnostics.
--
-- Which file models what:
--   Api            the structs of gateway-api, Envoy Gateway and Kubernetes that the checks read;
--                  they are not part of the repository, and a record has the fields that are used
--   ObjectKinds    the kinds of pkg/objectkinds and the words of the API
--   GatewayApi     pkg/gatewayapi: Route (route.go), Rules (rules.go, rulenames.go), Parent
--                  (parent.go, listenerselect.go, gateway.go, gatewayclass.go,
--                  gatewaylistener.go), Attach and Hostnames (attach.go), Certificate
--                  (certificate.go), PolicyCoverage (policycoverage.go), RouteMatch
--                  (routematch.go)
--   Checks         pkg/templates, a module for each check; `check_func` is its checkFunc, `judge`
--                  the body of the loop in it, `message` the diagnostic
--   Lint           pkg/command/lint: Merge (merge.go), Scanned (scanned.go), Command
--                  (command.go: RunE)
--   Prelude        what the modules share: Go's maps, loops over slices, sorting, formatted text
--   Tests          a sample manifest set
--
-- How the code corresponds. A Go function over a lint context is a function of the context; a loop
-- is structural recursion or a search of `Prelude.Lists`; `continue` is none and an appended
-- diagnostic is some. A type switch over runtime objects is a match on `Api.K8sObject`, which has a
-- constructor for each Go type. A map that is used as a set is the list of its elements, and a map
-- to slices is an association list. All loops run over the finite lists of the manifest set, so no
-- fuel is needed. Hostnames are compared as code points, whose order and equality are those of
-- their UTF-8 bytes, and so are the keys of HTTP matches. A sum of int32 wraps around. Numbers that
-- %d prints and texts that %q prints stay symbolic; where quoted names are sorted, they are compared
-- as %q writes them, with every character past ASCII taken as printable.
--
-- Not modelled: the root command and the declaration of flags, the registration of checks with
-- kube-linter, the embedded checks and the decoder, which are calls of cobra, kube-linter and the
-- Kubernetes scheme. What RunE calls of them is the `Environment` of Lint/Command. The label
-- selector of k8s.io/apimachinery is a parameter of GatewayApi/PolicyCoverage and of the two checks
-- that resolve selectors, and the kind that kube-linter gives an object one of Lint/Scanned.
pub mod Prelude
pub mod Api
pub mod ObjectKinds
pub mod GatewayApi
pub mod Checks
pub mod Lint
pub mod Tests
