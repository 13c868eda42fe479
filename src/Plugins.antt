-- ===== src/Plugins.antt =====
-- src/plugins/PluginLoader.cpp: the shared libraries that collect logs. What the loader of the
-- system finds in a file, and what a plugin's functions return, are parameters; the mutex makes each
-- method one step.
pub mod Removal
pub mod Tests
use orbis_agent_desktop.Base.{
  ℕ, suc, ◌+◌, Bool, true, false, ◌&&◌, not, List, [], ◌∷◌, ◌++◌, Option, none, some, Text, text,
  text_eq, is_empty, if◌then◌else◌, length, zero,
}
use orbis_agent_desktop.Json.{JsonLib, Result, ok, err}

pub record PluginLogEntry : Type 0 where
  pub source : Text
  pub level : Text
  pub message : Text
  pub metadata_json : Text

pub record LoadedPlugin : Type 0 where
  pub name : Text
  pub version : Text
  -- The path of the library, for its handle.
  pub handle : Text

-- What `dlopen` and `dlsym` find: the names and versions are what the plugin's functions return.
pub record Library : Type 0 where
  pub orbis_plugin_name : Option Text
  pub orbis_plugin_version : Option Text
  pub has_collect : Bool
  pub has_cleanup : Bool

-- An entry of the plugins directory.
pub record Entry : Type 0 where
  pub path : Text
  pub is_regular_file : Bool
  pub extension : Text
  pub dlopen : Option Library

-- What the loader does to libraries: it runs the plugin's cleanup, and closes the handle.
pub data Event : Type 0 where
  cleaned_up : Text → Event
  closed : Text → Event

-- The part of the loading after `dlopen`, with what the name and version functions are.
load_library : Text → Library → List LoadedPlugin → List LoadedPlugin × List Event
load_library path lib plugins = elim lib.orbis_plugin_name [
  | none ↦ (plugins, closed path ∷ [])
  | some name ↦ elim lib.orbis_plugin_version [
    | none ↦ (plugins, closed path ∷ [])
    | some version ↦
        if lib.has_collect && lib.has_cleanup
        then (plugins ++ record { name = name; version = version; handle = path } ∷ [], [])
        else (plugins, closed path ∷ [])
  ]
]

pub load_plugin : List LoadedPlugin → Entry → List LoadedPlugin × List Event
unfolding load_library
load_plugin plugins e = elim e.dlopen [
  | none ↦ (plugins, [])
  | some lib ↦ load_library e.path lib plugins
]

load_entries : List LoadedPlugin → List Entry → List LoadedPlugin × List Event
load_entries plugins [] = (plugins, [])
load_entries plugins (e ∷ es) =
    let skip = load_entries plugins es in
    let (loaded, events) = load_plugin plugins e in
    let (final, later) = load_entries loaded es in
    if e.is_regular_file && text_eq e.extension (text ".so") then (final, events ++ later) else skip

-- `none` is a directory that does not exist.
pub load_all : List LoadedPlugin → Option (List Entry) → List LoadedPlugin × List Event
unfolding load_entries
load_all plugins none = (plugins, [])
load_all plugins (some entries) = load_entries plugins entries

-- The handle is not null: only `load_plugin` makes plugins.
pub unload_plugin : LoadedPlugin → List Event
unload_plugin p = cleaned_up p.handle ∷ closed p.handle ∷ []

unload_each : List LoadedPlugin → List Event
unload_each [] = []
unload_each (p ∷ ps) = unload_plugin p ++ unload_each ps

pub unload_all : List LoadedPlugin → List LoadedPlugin × List Event
unfolding unload_each
unload_all plugins = ([], unload_each plugins)

-- What a plugin's `collect` does.
pub data Collected : Type 0 where
  null_pointer : Collected
  returns : Text → Collected
  throws : Collected

-- `plugins_.erase(plugins_.begin() + i)`, with the unloading of `plugins_[i]` before it.
pub unload_at : ℕ → List LoadedPlugin → List LoadedPlugin × List Event
unload_at i [] = ([], [])
unload_at zero (p ∷ ps) = (ps, unload_plugin p)
unload_at (suc i) (p ∷ ps) = let (rest, events) = unload_at i ps in (p ∷ rest, events)

-- From `rbegin` to `rend`: the last index first.
pub remove_all : List ℕ → List LoadedPlugin → List LoadedPlugin × List Event
remove_all [] plugins = (plugins, [])
remove_all (i ∷ indices) plugins =
    let (later, events) = remove_all indices plugins in
    let (rest, last_events) = unload_at i later in (rest, events ++ last_events)

pub record CollectAll : Type 0 where
  pub batches : List (List PluginLogEntry)
  pub plugins : List LoadedPlugin
  pub events : List Event

module _ (json : JsonLib) where
  parse_item : Text → json.Value → Result PluginLogEntry
  parse_item plugin_name item = elim (json.value_text item (text "source") plugin_name) [
    | err what ↦ err what
    | ok source ↦ elim (json.value_text item (text "level") (text "INFO")) [
      | err what ↦ err what
      | ok level ↦ elim (json.value_text item (text "message") []) [
        | err what ↦ err what
        | ok message ↦ elim (json.member item (text "metadata")) [
          | none ↦ ok (record {
            source = source;
            level = level;
            message = message;
            metadata_json = text "{}";
          })
          | some metadata ↦ elim (json.dump metadata) [
            | err what ↦ err what
            | ok dumped ↦ ok (record {
              source = source;
              level = level;
              message = message;
              metadata_json = dumped;
            })
          ]
        ]
      ]
    ]
  ]

  parse_items : Text → List json.Value → Result (List PluginLogEntry)
  parse_items plugin_name [] = ok []
  parse_items plugin_name (item ∷ items) = elim (parse_item plugin_name item) [
    | err what ↦ err what
    | ok e ↦ elim (parse_items plugin_name items) [ err what ↦ err what | ok es ↦ ok (e ∷ es) ]
  ]

  -- A text that is no JSON is caught and logged; the exceptions of the accessors are not caught here.
  pub parse_collect_result : Text → Text → Result (List PluginLogEntry)
  unfolding parse_item parse_items
  parse_collect_result json_str plugin_name =
      let parsed : Result (List PluginLogEntry) = elim (json.parse json_str) [
        | err what ↦ ok []
        | ok arr ↦ elim (json.elements arr) [
          | none ↦ ok []
          | some items ↦ parse_items plugin_name items
        ]
      ] in
      if is_empty json_str then ok [] else parsed

  module _ (collect : LoadedPlugin → Collected) where
    -- The body of the `try` block for one plugin: `err` is an exception.
    try_collect : LoadedPlugin → Result (List PluginLogEntry)
    try_collect p = elim (collect p) [
      | null_pointer ↦ ok []
      | returns raw ↦ parse_collect_result raw p.name
      | throws ↦ err []
    ]

    -- The calls of the callback, with their entries, and `to_remove`; `i` is the index of the head.
    pub collect_loop : ℕ → List LoadedPlugin → List (List PluginLogEntry) × List ℕ
    collect_loop i [] = ([], [])
    collect_loop i (p ∷ ps) =
        let (batches, to_remove) = collect_loop (i + 1) ps in
        elim (try_collect p) [
          | err what ↦ (batches, i ∷ to_remove)
          | ok [] ↦ (batches, to_remove)
          | ok (e ∷ es) ↦ ((e ∷ es) ∷ batches, to_remove)
        ]

  pub collect_all : (LoadedPlugin → Collected) → List LoadedPlugin → CollectAll
  unfolding collect_loop remove_all
  collect_all collect plugins =
      let (batches, to_remove) = collect_loop collect 0 plugins in
      let (rest, events) = remove_all to_remove plugins in
      record { batches = batches; plugins = rest; events = events }
