-- ===== src/Main/Tests.antt =====
-- An agent whose first attempt finds no broker and whose second one is answered, and an installation.
use orbis_agent_desktop.Base.{
  ℕ, ◌≡◌, refl, Bool, true, false, List, [], ◌∷◌, ◌++◌, some, Text, text, text_eq, if◌then◌else◌,
  subst, ap,
}
use orbis_agent_desktop.Base.Files.{write, copy_file, copy_content}
use orbis_agent_desktop.Json.{JsonLib, ok}
use orbis_agent_desktop.Config.Base64.{b64_encode}
use orbis_agent_desktop.Config.Token.{IsIv, encrypt_token, pack}
use mathlib.Core.Bool.{false≢true}
use orbis_agent_desktop.Config.Save.{patched}
use orbis_agent_desktop.Config.Tests.{toy_crypto, toy_crypto-CryptoLaws, iv16, iv16-IsIv, fresh}
use orbis_agent_desktop.Executor.Tests.{lenient}
use orbis_agent_desktop.Installer.{dest_cfg, install, enable, copy_config}
use orbis_agent_desktop.Installer.Kept.{or_default}
use orbis_agent_desktop.Installer.Tests.{exec_path, program_only, obliging}
use orbis_agent_desktop.Mqtt.{Paho, Settings, construct, connect}
use orbis_agent_desktop.Topics.{topic_for, topic_register_ack_fmt}
use orbis_agent_desktop.Main.FirstConfig.{config_with, first_config, patched-config_with}
use orbis_agent_desktop.Main.Onboarding.{
  Attempt, State, Outcome, onboarded, failed, threw, reg, do_onboarding, onboarding_loop, attempt,
}
use orbis_agent_desktop.Main.Onboarding.Outcomes.{After, answer, attempt-After}
use orbis_agent_desktop.Main.Onboarding.Attempts.{Calm, Ends}
use orbis_agent_desktop.Main.Onboarding.Answered.{IsAnswered, onboarding_loop-registers}
use orbis_agent_desktop.Main.Cli.{Machine, Options, install_command, exit_code}
use orbis_agent_desktop.Uninstall.{install_key, save_uninstall_key}
use orbis_agent_desktop.Main.Cli.Install.{install_command-config}

-- A client whose connections are refused, or not.
abbrev client : ℕ → Paho
client rc = record {
  Handle = Unit {0};
  create = λ uri id. (0, tt);
  connect = λ options h. (rc, tt);
  disconnect = λ timeout h. tt;
  is_connected = λ h. true;
  publish_message = λ topic payload qos retained h. (0, tt);
  subscribe = λ topic qos h. (0, tt);
}

-- The status of every document is `ok`, its token `t`.
abbrev agreeable : JsonLib
agreeable = record lenient {
  value_text =
      λ v key default. if text_eq key (text "status") then ok (text "ok") else ok (text "t");
}

abbrev id : Text
id = 100 ∷ []

abbrev an_attempt : ℕ → List (Text × Text) → Attempt
an_attempt rc messages = record {
  paho = client rc;
  hostname = text "h";
  os_version = text "Linux";
  architecture = text "x86_64";
  timestamp = text "t";
  messages = messages;
  rand = some iv16;
  can_write = true;
  shutdown_in_wait = λ i. false;
}

abbrev refused : Attempt
refused = an_attempt 3 []

abbrev answered : Attempt
answered = an_attempt 0 ((topic_for topic_register_ack_fmt id, text "{}") ∷ [])

abbrev settings : Settings
settings = record {
  broker_uri = text "ssl://b";
  client_id = text "c";
  ca_cert_path = [];
  reconnect_min_sec = 1;
  reconnect_max_sec = 60;
}

abbrev start : State
start = record { config = record fresh { config_path = text "/c" }; files = λ p. some (text "x") }

abbrev verbatim : Text → Text → Text
verbatim at format = format

patched-config_with_example :
    patched verbatim (100 ∷ []) (116 ∷ 61 ∷ []) (config_with [] [] (98 ∷ []) (115 ∷ []))
    ≡ config_with (100 ∷ []) (116 ∷ 61 ∷ []) (98 ∷ []) (115 ∷ [])
patched-config_with_example =
    patched-config_with verbatim (λ at f h. refl) (100 ∷ []) (116 ∷ 61 ∷ []) (98 ∷ []) (115 ∷ [])
      (refl, tt) (refl, (refl, tt)) (refl, tt) (refl, tt) (refl, tt)

attempt-After_example :
    After agreeable toy_crypto verbatim answered start id
      (answer agreeable toy_crypto verbatim answered id).received_token
      (attempt agreeable toy_crypto verbatim answered settings start id (text "s"))
attempt-After_example =
    attempt-After agreeable toy_crypto verbatim answered settings start id (text "s")

answered-IsAnswered : IsAnswered agreeable toy_crypto verbatim settings id (text "s") answered
unfolding text text_eq encrypt_token pack
answered-IsAnswered = record {
  client = record {
    creates = refl;
    connects = λ options h. refl;
    alive = λ h. refl;
    publishes = λ topic payload qos retained h. refl;
  };
  payload = reg agreeable answered id;
  dumped = refl;
  earlier = [];
  reply = text "{}";
  last = refl;
  document = text "{}";
  token = text "t";
  parsed = refl;
  status_ok = refl;
  gives = refl;
  given = refl;
  encrypted = b64_encode (iv16 ++ 0 ∷ text "t");
  encrypts = refl;
  opens = refl;
}

some-IsIv : (iv : List ℕ) → some iv16 ≡ some iv → IsIv iv
some-IsIv iv e = let p : iv16 ≡ iv = cc in subst IsIv p iv16-IsIv

abbrev is_threw : Outcome → Bool
is_threw onboarded = false
is_threw failed = false
is_threw threw = true

refused-Calm : Calm agreeable toy_crypto verbatim settings id (text "s") refused
unfolding attempt do_onboarding construct connect
refused-Calm = (some-IsIv, λ s e. false≢true (ap is_threw e))

onboarding_loop-registers_example : Ends 0 1 (
    onboarding_loop agreeable toy_crypto verbatim
      (λ n. false)
      settings
      id
      (text "s")
      0
      0
      start
      (refused ∷ answered ∷ []))
onboarding_loop-registers_example =
    onboarding_loop-registers agreeable toy_crypto verbatim toy_crypto-CryptoLaws settings id
      (text "s") refl (λ n. false) (λ n. refl) (refused ∷ []) [] answered start (text "x")
      (refused-Calm, tt) some-IsIv answered-IsAnswered refl

-- The directory of the configuration is not there yet.
abbrev machine : Machine
machine = record {
  system = obliging;
  exec_path = exec_path;
  config_opens = false;
  key_opens = true;
}

abbrev options : Options
options = record {
  config_path = dest_cfg;
  server_url = 98 ∷ [];
  reg_token = [];
  uninstall_code = [];
  do_install = true;
  do_uninstall = false;
  do_run = false;
  do_version = false;
  do_status = false;
  do_verify_uninstall = false;
}

abbrev digest : Text → List ℕ
digest s = 1 ∷ []

installs : (install_command digest machine program_only options).0 ≡ 0
unfolding install_command exit_code text text_eq write install enable copy_config copy_file
    copy_content install_key save_uninstall_key
installs = refl

install_command-config_example :
    (install_command digest machine program_only options).1 dest_cfg
    ≡ some (
        if machine.config_opens
        then first_config options.server_url options.reg_token
        else or_default (program_only dest_cfg))
install_command-config_example =
    install_command-config digest machine program_only options refl refl refl installs
