-- ===== src/Plugins/Tests.antt =====
-- A round of collection in which one plugin throws and one returns two entries, and a JSON library
-- to run it with: a value is a text, an array has an item for each byte, and 255 is no JSON.
use orbis_agent_desktop.Base.{
  ◌≡◌, Bool, false, ◌||◌, ◌==◌, List, [], ◌∷◌, keep, flatten, Text, text, text_eq, if◌then◌else◌,
  some, none,
}
use orbis_agent_desktop.Json.{JsonLib, ok, err}
use orbis_agent_desktop.Plugins.{LoadedPlugin, Collected, returns, throws, collect_all}
use orbis_agent_desktop.Plugins.Removal.{succeeds, unloaded, collected, collect_all_lem}

abbrev not_json : Text → Bool
not_json [] = false
not_json (c ∷ cs) = c == 255 || not_json cs

abbrev singletons : Text → List Text
singletons [] = []
singletons (c ∷ cs) = (c ∷ []) ∷ singletons cs

abbrev bytes : JsonLib
bytes = record {
  Value = Text;
  parse = λ s. if not_json s then err (1 ∷ []) else ok s;
  value_text = λ v key default. ok v;
  value_int = λ v key default. ok default;
  value_json = λ v key default. ok v;
  elements = λ v. some (singletons v);
  member = λ v key. none;
  null = [];
  of_text = λ s. s;
  of_int = λ z. [];
  object = λ fields. [];
  array = λ items. [];
  dump = λ v. ok v;
}

abbrev plugin : Text → LoadedPlugin
plugin name = record { name = name; version = []; handle = name }

-- The plugin named one throws, the one named two returns no JSON, and the others return two entries.
abbrev collect : LoadedPlugin → Collected
collect p =
    if text_eq p.name (text "one")
    then throws
    else if text_eq p.name (text "two")
    then returns (255 ∷ [])
    else returns (7 ∷ 8 ∷ [])

abbrev three_plugins : List LoadedPlugin
three_plugins = plugin (text "one") ∷ plugin (text "two") ∷ plugin (text "three") ∷ []

collect_all_lem_example :
    let r = collect_all bytes collect three_plugins in
    (r.plugins ≡ keep (succeeds bytes collect) three_plugins)
    × (r.events ≡ unloaded bytes collect three_plugins)
    × (flatten r.batches ≡ collected bytes collect three_plugins)
collect_all_lem_example = collect_all_lem bytes collect three_plugins
