-- ===== src/Clients/Table.antt =====
-- ui/src/api: the table of the server's routes, read back from a method and an address.
use otel_hive.Base.{Option, none, some, List, [], ◌∷◌, if◌then◌else◌}
use otel_hive.Text.{Text, text, text_eq}
use otel_hive.Clients.{Method, get, post, put, delete, patch}
use otel_hive.Clients.Routing.{Label}

-- The first label whose word is the given one.
choose : Text → List (Text × Label) → Option Label
unfolding text_eq
choose word [] = none
choose word ((w, l) ∷ rest) = if text_eq word w then some l else choose word rest

-- The calls of a collection.
of_collection : Method → Text → Option Label
unfolding choose
of_collection get a = choose a (
    (text "agents", (text "getAgents", []))
    ∷ (text "configs", (text "getConfigs", []))
    ∷ (text "groups", (text "getGroups", []))
    ∷ (text "topology", (text "getTopology", []))
    ∷ (text "git-sources", (text "listGitSources", []))
    ∷ [])
of_collection post a = choose a (
    (text "configs", (text "createConfig", []))
    ∷ (text "groups", (text "createGroup", []))
    ∷ (text "git-sources", (text "createGitSource", []))
    ∷ [])
of_collection _ a = none

-- A word stands for a call of its own, and any other segment for an id.
or_id : Text → Text → Label → Label → Label
unfolding text_eq
or_id word b own item = if text_eq b word then own else item

of_item : Method → Text → Text → Option Label
unfolding choose or_id
of_item get a b = choose a (
    (text "agents", or_id (text "stats") b (text "getAgentStats", []) (text "getAgent", b))
    ∷ (
      text "configs",
      or_id (text "versions") b (text "getConfigVersions", []) (text "getConfig", b),
    )
    ∷ (text "groups", (text "getGroup", b))
    ∷ (text "git-sources", (text "getGitSource", b))
    ∷ [])
of_item post a b = choose a ((text "configs", (text "validateConfig", [])) ∷ [])
of_item put a b = choose a (
    (text "configs", (text "updateConfig", b))
    ∷ (text "git-sources", (text "updateGitSource", b))
    ∷ [])
of_item delete a b = choose a (
    (text "groups", (text "deleteGroup", b))
    ∷ (text "git-sources", (text "deleteGitSource", b))
    ∷ [])
of_item patch a b = none

-- `a/b/c`, where `topology` has its id last.
of_part : Method → Text → Text → Text → Option Label
unfolding choose or_id
of_part get a b c = choose a (
    (
      text "topology",
      or_id (text "agent") b (text "getAgentTopology", c) (text "getGroupTopology", c),
    )
    ∷ (text "groups", or_id (text "config") c (text "getGroupConfig", b) (text "getGroupAgents", b))
    ∷ [])
of_part post a b c = choose a (
    (text "agents", or_id (text "config") c (text "sendConfigToAgent", b) (text "restartAgent", b))
    ∷ (
      text "groups",
      or_id (text "config") c (text "assignConfigToGroup", b) (text "restartGroup", b),
    )
    ∷ (text "git-sources", (text "triggerSync", b))
    ∷ [])
of_part patch a b c = some (text "updateAgentGroup", b)
of_part _ a b c = none

-- The call that a method and the segments of an address belong to.
unfoldable pub called : Method → List Text → Option Label
unfolding of_collection of_item of_part
called m (root ∷ a ∷ []) = of_collection m a
called m (root ∷ a ∷ b ∷ []) = of_item m a b
called m (root ∷ a ∷ b ∷ c ∷ []) = of_part m a b c
called m _ = none
