-- ===== src/Main/FirstConfig.antt =====
-- The configuration that `--install` writes, and what the saving of the credentials makes of it.
use orbis_agent_desktop.Base.{
  ◌≡◌, refl, ap, ◌∙◌, [], ◌∷◌, ◌++◌, Text, text, drop, All-append, ◌==◌, false, append_assoc,
}
use orbis_agent_desktop.Base.Stoi.{skip_spaces}
use orbis_agent_desktop.Config.Save.{
  replace, replace_from, patched, after_match, after_prefix, after_equals, after_string,
  after_quote,
}
use orbis_agent_desktop.Config.Save.Patch.{Without, replace_from-quoted, replace_from-match}

-- What stands after the register secret.
abbrev intervals : Text
intervals =
    text
      "\"\nreconnect_delay_min_sec = 1\nreconnect_delay_max_sec = 60\nkeepalive_sec = 60\n\n[heartbeat]\ninterval_sec = 30\n\n[logs]\ninterval_sec = 60\n"

-- From the line after the token on.
abbrev sections : Text → Text → Text
sections server_url register_secret =
    text "\nlog_file = \"/var/log/orbis-agent.log\"\n\n[mqtt]\nbroker_host = \""
    ++ (server_url
        ++ (text "\"\nbroker_port = 8883\nuse_tls = true\nregister_secret = \""
            ++ (register_secret ++ intervals)))

-- The configuration with a device id and a token; the installation writes both empty.
pub config_with : Text → Text → Text → Text → Text
config_with device_id token server_url register_secret =
    text "[agent]\n"
    ++ (text "device_id = \""
        ++ (device_id
            ++ b'"'
              ∷ b'\n'
              ∷ (text "token = \"" ++ (token ++ b'"' ∷ sections server_url register_secret))))

-- `cfg_out << ...`
pub first_config : Text → Text → Text
unfolding config_with
first_config server_url reg_token =
    config_with [] [] server_url
      (elim reg_token [ [] ↦ text "orbis_register_secret" | c ∷ s ↦ c ∷ s ])

module _ (format : Text → Text) where
  sections-token :
      (server_url register_secret : Text)
      → Without b'=' server_url
      → Without b'=' register_secret
      → replace_from format (text "token") 0 (sections server_url register_secret)
        ≡ sections server_url register_secret
  unfolding replace_from text after_match after_prefix
  sections-token server_url register_secret u v =
      let after_url = drop 1 (
        text "\"\nbroker_port = 8883\nuse_tls = true\nregister_secret = \""
        ++ (register_secret ++ intervals)) in
      rw
        (replace_from-quoted format (text "token") server_url after_url
          (unfold text in (refl, (refl, (refl, (refl, (refl, tt)))))) u)
        (rw
          (replace_from-quoted format (text "token") register_secret (drop 1 intervals)
            (unfold text in (refl, (refl, (refl, (refl, (refl, tt)))))) v)
          refl)

  sections-device_id :
      (server_url register_secret : Text)
      → Without b'=' server_url
      → Without b'=' register_secret
      → replace_from format (text "device_id") 0 (sections server_url register_secret)
        ≡ sections server_url register_secret
  unfolding replace_from text after_match after_prefix
  sections-device_id server_url register_secret u v =
      let after_url = drop 1 (
        text "\"\nbroker_port = 8883\nuse_tls = true\nregister_secret = \""
        ++ (register_secret ++ intervals)) in
      rw
        (replace_from-quoted format (text "device_id") server_url after_url
          (unfold text in
            (refl, (refl, (refl, (refl, (refl, (refl, (refl, (refl, (refl, tt))))))))))
          u)
        (rw
          (replace_from-quoted format (text "device_id") register_secret (drop 1 intervals)
            (unfold text in
              (refl, (refl, (refl, (refl, (refl, (refl, (refl, (refl, (refl, tt))))))))))
            v)
          refl)

  -- Each pass replaces its own line, and copies the other lines.
  device_id-line :
      (tail : Text)
      → replace_from format (text "device_id") 0 (text "device_id = \"" ++ b'"' ∷ tail)
        ≡ format (text "device_id = \"" ++ b'"' ∷ tail)
          ++ replace_from format (text "device_id") 0 tail
  unfolding text after_match after_prefix after_equals after_string after_quote skip_spaces
  device_id-line tail =
      replace_from-match format (text "device_id") b'd' (text "evice_id = \"\"") tail refl

  token-line :
      (tail : Text)
      → replace_from format (text "token") 0 (text "token = \"" ++ b'"' ∷ tail)
        ≡ format (text "token = \"" ++ b'"' ∷ tail) ++ replace_from format (text "token") 0 tail
  unfolding text after_match after_prefix after_equals after_string after_quote skip_spaces
  token-line tail = replace_from-match format (text "token") b't' (text "oken = \"\"") tail refl

  device_id-start :
      (rest : Text)
      → replace_from format (text "device_id") 0 (text "[agent]\n" ++ rest)
        ≡ text "[agent]\n" ++ replace_from format (text "device_id") 0 rest
  unfolding replace_from text after_match after_prefix
  device_id-start rest = refl

  token-start :
      (rest : Text)
      → replace_from format (text "token") 0 (text "[agent]\n" ++ rest)
        ≡ text "[agent]\n" ++ replace_from format (text "token") 0 rest
  unfolding replace_from text after_match after_prefix
  token-start rest = refl

  device_id-token :
      (rest : Text)
      → replace_from format (text "device_id") 0 (b'\n' ∷ (text "token = \"" ++ b'"' ∷ rest))
        ≡ b'\n' ∷ (text "token = \"" ++ b'"' ∷ replace_from format (text "device_id") 0 rest)
  unfolding replace_from text after_match after_prefix
  device_id-token rest = refl

  token-device_id :
      (device_id rest : Text)
      → Without b'=' device_id
      → replace_from format
          (text "token")
          0
          (text "device_id = \"" ++ (device_id ++ b'"' ∷ b'\n' ∷ rest))
        ≡ text "device_id = \""
          ++ (device_id ++ b'"' ∷ b'\n' ∷ replace_from format (text "token") 0 rest)
  unfolding replace_from text after_match after_prefix
  token-device_id device_id rest w =
      ap (λ t. text "device_id = \"" ++ t)
        (replace_from-quoted format (text "token") device_id (b'\n' ∷ rest)
          (unfold text in (refl, (refl, (refl, (refl, (refl, tt)))))) w)

module _ (expand : Text → Text → Text)
    (plain : (at f : Text) → Without b'$' f → expand at f ≡ f) where
  -- What replaces a line, and what follows it.
  device_id-written :
      (at value tail : Text)
      → Without b'$' value
      → expand at (text "device_id" ++ (text " = \"" ++ (value ++ text "\""))) ++ tail
        ≡ text "device_id = \"" ++ (value ++ b'"' ∷ tail)
  unfolding text
  device_id-written at value tail p =
      let dollars = All-append (λ c. (c == b'$') ≡ false) value (text "\"") p (refl, tt) in
      ap (λ t. t ++ tail)
        (plain at (text "device_id" ++ (text " = \"" ++ (value ++ text "\""))) (
          refl,
          (
            refl,
            (
              refl,
              (
                refl,
                (refl, (refl, (refl, (refl, (refl, (refl, (refl, (refl, (refl, dollars))))))))),
              ),
            ),
          ),
        ))
      ∙ ap (λ t. text "device_id = \"" ++ t) (append_assoc value (text "\"") tail)

  token-written :
      (at value tail : Text)
      → Without b'$' value
      → expand at (text "token" ++ (text " = \"" ++ (value ++ text "\""))) ++ tail
        ≡ text "token = \"" ++ (value ++ b'"' ∷ tail)
  unfolding text
  token-written at value tail p =
      let dollars = All-append (λ c. (c == b'$') ≡ false) value (text "\"") p (refl, tt) in
      ap (λ t. t ++ tail)
        (plain at (text "token" ++ (text " = \"" ++ (value ++ text "\"")))
          (refl, (refl, (refl, (refl, (refl, (refl, (refl, (refl, (refl, dollars))))))))))
      ∙ ap (λ t. text "token = \"" ++ t) (append_assoc value (text "\"") tail)

  -- The two passes.
  replace-device_id :
      (device_id server_url register_secret : Text)
      → Without b'$' device_id
      → Without b'=' server_url
      → Without b'=' register_secret
      → replace expand (text "device_id") device_id (config_with [] [] server_url register_secret)
        ≡ config_with device_id [] server_url register_secret
  unfolding replace config_with
  replace-device_id device_id server_url register_secret p u v =
      let format =
        λ (at : Text). expand at (text "device_id" ++ (text " = \"" ++ (device_id ++ text "\""))) in
      let rest = b'\n' ∷ (text "token = \"" ++ b'"' ∷ sections server_url register_secret) in
      device_id-start format (text "device_id = \"" ++ b'"' ∷ rest)
      ∙ ap (λ t. text "[agent]\n" ++ t)
          (device_id-line format rest
            ∙ ap (λ t. format (text "device_id = \"" ++ b'"' ∷ rest) ++ t)
                (device_id-token format (sections server_url register_secret)
                  ∙ ap (λ t. b'\n' ∷ (text "token = \"" ++ b'"' ∷ t))
                      (sections-device_id format server_url register_secret u v))
            ∙ device_id-written (text "device_id = \"" ++ b'"' ∷ rest) device_id rest p)

  replace-token :
      (device_id token server_url register_secret : Text)
      → Without b'$' token
      → Without b'=' device_id
      → Without b'=' server_url
      → Without b'=' register_secret
      → replace expand (text "token") token (config_with device_id [] server_url register_secret)
        ≡ config_with device_id token server_url register_secret
  unfolding replace config_with
  replace-token device_id token server_url register_secret q w u v =
      let format =
        λ (at : Text). expand at (text "token" ++ (text " = \"" ++ (token ++ text "\""))) in
      let tail = sections server_url register_secret in
      token-start format
        (text "device_id = \"" ++ (device_id ++ b'"' ∷ b'\n' ∷ (text "token = \"" ++ b'"' ∷ tail)))
      ∙ ap (λ t. text "[agent]\n" ++ t)
          (token-device_id format device_id (text "token = \"" ++ b'"' ∷ tail) w
            ∙ ap (λ t. text "device_id = \"" ++ (device_id ++ b'"' ∷ b'\n' ∷ t))
                (token-line format tail
                  ∙ ap (λ t. format (text "token = \"" ++ b'"' ∷ tail) ++ t)
                      (sections-token format server_url register_secret u v)
                  ∙ token-written (text "token = \"" ++ b'"' ∷ tail) token tail q))

-- Where no text that is written has a `$`, which the formats of `std::regex_replace` give a meaning,
-- and the device id, the server and the secret have no `=`: saving the credentials in the file of
-- the installation writes them into their two lines, and leaves all other text as it is.
pub patched-config_with :
    (expand : Text → Text → Text)
    → ((at f : Text) → Without b'$' f → expand at f ≡ f)
    → (device_id token server_url register_secret : Text) → Without b'$' device_id
    → Without b'$' token
    → Without b'=' device_id
    → Without b'=' server_url
    → Without b'=' register_secret
    → patched expand device_id token (config_with [] [] server_url register_secret)
      ≡ config_with device_id token server_url register_secret
unfolding patched
patched-config_with expand plain device_id token server_url register_secret p q w u v =
    ap (replace expand (text "token") token)
      (replace-device_id expand plain device_id server_url register_secret p u v)
    ∙ replace-token expand plain device_id token server_url register_secret q w u v
