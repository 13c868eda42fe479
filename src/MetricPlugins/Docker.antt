-- ===== src/MetricPlugins/Docker.antt =====
-- src/plugins/docker_stats/docker_stats.cpp: the plugin that measures containers. What `dockerGet` gives,
-- the numbers of Docker's answers, and the printing and the JSON value of a `double` are parameters. A
-- key of the statistics of a processor that is missing is undefined there, and is taken to be there.
use orbis_agent_desktop.Base.{
  ℕ, ◌≡◌, refl, Bool, false, List, [], ◌∷◌, ◌++◌, Option, none, some, Text, text, c_string,
  is_empty, if◌then◌else◌, ◌==◌, take, inl, inr,
}
use orbis_agent_desktop.Base.Int.{ℤ}
use orbis_agent_desktop.Json.{JsonLib, Result, ok, err, Result-cases}
use orbis_agent_desktop.Heartbeat.Linux.{delta}

-- The counters of a processor, with those of the sample before.
record Counters : Type 0 where
  total_usage : ℕ
  previous_total_usage : ℕ
  system_cpu_usage : ℕ
  previous_system_cpu_usage : ℕ
  online_cpus : ℤ

-- A `double`, as what it is computed from: 0.0, the share of a processor, a number of bytes in MB, and the
-- percentage of a limit.
data Measure : Type 0 where
  zero_measure : Measure
  cpu_share : ℕ → ℕ → ℤ → Measure
  megabytes : ℕ → Measure
  percent_of : ℕ → ℕ → Measure

record Docker (json : JsonLib) : Type 0 where
  -- `dockerGet`, which gives no text where it fails.
  docker_get : Text → Text
  -- `empty()`, `[0]` and `get<std::string>` of a value; the last two throw on another type.
  empty : json.Value → Bool
  first : json.Value → Result json.Value
  get_text : json.Value → Result Text
  -- The numbers that a document has; `none` where a conversion throws.
  counters : json.Value → Option Counters
  usage_and_limit : json.Value → Option (ℕ × ℕ)
  -- `%.1f`, and the value in a document.
  print : Measure → Text
  value : Measure → json.Value

calc_cpu_percent : Option Counters → Measure
calc_cpu_percent none = zero_measure
calc_cpu_percent (some c) =
    let cpu_delta = delta c.total_usage c.previous_total_usage in
    let sys_delta = delta c.system_cpu_usage c.previous_system_cpu_usage in
    if sys_delta == 0 then zero_measure else cpu_share cpu_delta sys_delta c.online_cpus

record Memory : Type 0 where
  ram_mb : Measure
  ram_limit_mb : Measure
  ram_pct : Measure

memory_of : Option (ℕ × ℕ) → Memory
memory_of none = record {
  ram_mb = zero_measure;
  ram_limit_mb = zero_measure;
  ram_pct = zero_measure;
}
memory_of (some (usage, limit)) = record {
  ram_mb = megabytes usage;
  ram_limit_mb = megabytes limit;
  ram_pct = if limit == 0 then zero_measure else percent_of usage limit;
}

-- `substr(1)`, which throws on an empty text.
strip_leading : Text → Result Text
strip_leading [] = err (text "basic_string::substr")
strip_leading (c ∷ cs) = ok cs

and_then : {A B : Type 0} → Result A → (A → Result B) → Result B
and_then (err what) f = err what
and_then (ok a) f = f a

module _ (json : JsonLib) (d : Docker json) where
  container_name : json.Value → Text → Result Text
  unfolding and_then
  container_name c id = elim (json.member c (text "Names")) [
    | none ↦ ok id
    | some names ↦
        if d.empty names
        then ok id
        else and_then (and_then (d.first names) d.get_text) strip_leading
  ]

  -- `snprintf` into 256 bytes.
  message : Text → Text → Measure → Measure → Text
  message name image cpu_pct ram_mb = take 255 (
      text "Container "
      ++ (c_string name
          ++ (text " ("
              ++ (c_string image
                  ++ (text "): CPU "
                      ++ (d.print cpu_pct ++ (text "% RAM " ++ (d.print ram_mb ++ text " MB"))))))))

  entry_doc : Text → Text → Text → Measure → Memory → json.Value
  unfolding message
  entry_doc id name image cpu_pct mem = json.object (
      (text "source", json.of_text (text "docker_plugin"))
      ∷ (text "level", json.of_text (text "INFO"))
      ∷ (text "message", json.of_text (c_string (message name image cpu_pct mem.ram_mb)))
      ∷ (
        text "metadata",
        json.object (
            (text "container_id", json.of_text id)
            ∷ (text "container_name", json.of_text name)
            ∷ (text "image", json.of_text image)
            ∷ (text "cpu_percent", d.value cpu_pct)
            ∷ (text "ram_mb", d.value mem.ram_mb)
            ∷ (text "ram_limit_mb", d.value mem.ram_limit_mb)
            ∷ (text "ram_percent", d.value mem.ram_pct)
            ∷ []),
      )
      ∷ [])

  -- The statistics of a container: `none` where they do not come or are not JSON.
  stats_doc : Text → Text → Text → Option json.Value
  unfolding entry_doc calc_cpu_percent memory_of
  stats_doc id name image =
      let stats_raw = d.docker_get (text "/containers/" ++ (id ++ text "/stats?stream=false")) in
      if is_empty stats_raw then none else elim (json.parse stats_raw) [
        | err what ↦ none
        | ok stats ↦ some (
            entry_doc id name image (calc_cpu_percent (d.counters stats))
              (memory_of (d.usage_and_limit stats)))
      ]

  -- The body of the loop over the containers; an exception leaves the loop.
  container_doc : json.Value → Result (Option json.Value)
  unfolding container_name stats_doc
  container_doc c = and_then (json.value_text c (text "Id") []) (λ full_id.
      let id = take 12 full_id in
      and_then (container_name c id) (λ name.
        and_then (json.value_text c (text "Image") (text "unknown"))
          (λ image. ok (stats_doc id name image))))

  append_doc : Option json.Value → List json.Value → List json.Value
  append_doc none arr = arr
  append_doc (some entry) arr = arr ++ entry ∷ []

  container_docs : List json.Value → List json.Value → Result (List json.Value)
  unfolding append_doc
  container_docs arr [] = ok arr
  container_docs arr (c ∷ containers) = elim (container_doc c) [
    | err what ↦ err what
    | ok entry ↦ container_docs (append_doc entry arr) containers
  ]

  or_nothing : Result Text → Text
  or_nothing (ok result) = result
  or_nothing (err what) = text "[]"

  collect : Text
  unfolding container_docs or_nothing
  collect =
      let containers_raw = d.docker_get (text "/containers/json") in
      if is_empty containers_raw then text "[]" else elim (json.parse containers_raw) [
        | err what ↦ text "[]"
        | ok containers ↦ elim (json.elements containers) [
          | none ↦ text "[]"
          | some cs ↦
              or_nothing (and_then (container_docs [] cs) (λ arr. json.dump (json.array arr)))
        ]
      ]

  container_docs-threw :
      (arr before after : List json.Value) (c : json.Value) (what : Text)
      → container_doc c ≡ err what
      → (other : Text) × (container_docs arr (before ++ c ∷ after) ≡ err other)
  unfolding container_docs
  container_docs-threw arr [] after c what e = (what, rw (e, container_docs) refl)
  container_docs-threw arr (b ∷ before) after c what e = elim (Result-cases (container_doc b)) [
    | inl (other, f) ↦ (other, rw (f, container_docs) refl)
    | inr (entry, f) ↦
        rw (f, container_docs) (container_docs-threw (append_doc entry arr) before after c what e)
  ]

  -- One container whose id, name or image the plugin cannot read leaves the whole report empty, also of
  -- the containers before it.
  collect-threw :
      (before after : List json.Value) (containers c : json.Value) (what : Text)
      → is_empty (d.docker_get (text "/containers/json")) ≡ false
      → json.parse (d.docker_get (text "/containers/json")) ≡ ok containers
      → json.elements containers ≡ some (before ++ c ∷ after)
      → container_doc c ≡ err what
      → collect ≡ text "[]"
  unfolding collect and_then
  collect-threw before after containers c what given parsed found threw =
      let (other, e) = container_docs-threw [] before after c what threw in
      rw (given, collect) (rw parsed (rw found (rw e refl)))
