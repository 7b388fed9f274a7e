-- ===== src/Listener/Load.antt =====
-- load_plugin of mq_listener/plugin_chain.c: its ends.
use io_monitor.Prelude.{
  ℕ, ℤ, pos, true, false, [], ◌∷◌, ◌++◌, ◌==ℤ◌, Option, none, some, Bytes, ◌≡◌, refl, sym, ◌∙◌, ap,
  ◌⊎◌, inl, inr, Bool-cases, Option-cases, >>=-eq-some,
}
use mathlib.Core.Option.{some-injective}
use io_monitor.Plugin.{plugin_open_fail}
use io_monitor.Outcome.{done, fault}
use io_monitor.Listener.Unload.{link-plugins, link-state}
use io_monitor.Chain.{Plugin}
use io_monitor.Listener.Outside.{Module, System, make_plugin}
use io_monitor.Listener.State.{World}
use io_monitor.Listener.{link_opened, open_and_link, link_plugin, add_command, load_plugin}

-- What a new plugin is made of.
pub record IsMade {S : Type 0} (library : Bytes) (options alias : Option Bytes) (m : Module S)
    (address : ℕ) (p : Plugin S) : Type 0 where
  pub made_library : p.plugin_library ≡ library
  pub made_options : p.plugin_options ≡ options
  pub made_alias : p.plugin_alias ≡ alias
  pub made_running : p.plugin_paused ≡ false
  pub made_state : p.state ≡ address
  pub made_close : m.close_plugin ≡ some p.pfn_close_plugin
  pub made_accept : m.ok_to_accept_data ≡ some p.pfn_ok_to_accept_data
  pub made_process : m.process_data ≡ some p.pfn_process_data
  pub made_command : m.plugin_command ≡ p.pfn_plugin_command

module _ {S : Type 0} where
  make_plugin-IsMade :
      (library : Bytes) (options alias : Option Bytes) (m : Module S) (address : ℕ) (p : Plugin S)
      → make_plugin library options alias m address ≡ some p
      → IsMade library options alias m address p
  unfolding make_plugin
  make_plugin-IsMade library options alias m address p h =
      let (open_entry, e0, h0) = >>=-eq-some m.open_plugin _ h in
      let (close_entry, e1, h1) = >>=-eq-some m.close_plugin _ h0 in
      let (accept_entry, e2, h2) = >>=-eq-some m.ok_to_accept_data _ h1 in
      let (process_entry, e3, h3) = >>=-eq-some m.process_data _ h2 in
      let same = some-injective _ p h3 in
      record {
        made_library = sym (ap (λ (q : Plugin S). q.plugin_library) same);
        made_options = sym (ap (λ (q : Plugin S). q.plugin_options) same);
        made_alias = sym (ap (λ (q : Plugin S). q.plugin_alias) same);
        made_running = sym (ap (λ (q : Plugin S). q.plugin_paused) same);
        made_state = sym (ap (λ (q : Plugin S). q.state) same);
        made_close = e1 ∙ ap (λ (q : Plugin S). some q.pfn_close_plugin) same;
        made_accept = e2 ∙ ap (λ (q : Plugin S). some q.pfn_ok_to_accept_data) same;
        made_process = e3 ∙ ap (λ (q : Plugin S). some q.pfn_process_data) same;
        made_command = ap (λ (q : Plugin S). q.pfn_plugin_command) same;
      }

  -- One of the four entry points that are required is missing.
  abbrev pub IsIncomplete : Module S → Type 0
  IsIncomplete m =
      (m.open_plugin ≡ none)
      ⊎ ((m.close_plugin ≡ none) ⊎ ((m.ok_to_accept_data ≡ none) ⊎ (m.process_data ≡ none)))

  make_plugin-cases :
      (library : Bytes) (options alias : Option Bytes) (m : Module S) (address : ℕ)
      → ((make_plugin library options alias m address ≡ none) × IsIncomplete m)
        ⊎ ((p : Plugin S) × (make_plugin library options alias m address ≡ some p))
  unfolding make_plugin
  make_plugin-cases library options alias m address = elim (Option-cases m.open_plugin) [
    | inl e ↦ inl (rw e refl, inl e)
    | inr (f, e0) ↦ elim (Option-cases m.close_plugin) [
      | inl e ↦ inl (rw (e0, e) refl, inr (inl e))
      | inr (g, e1) ↦ elim (Option-cases m.ok_to_accept_data) [
        | inl e ↦ inl (rw (e0, e1, e) refl, inr (inr (inl e)))
        | inr (k, e2) ↦ elim (Option-cases m.process_data) [
          | inl e ↦ inl (rw (e0, e1, e2, e) refl, inr (inr (inr e)))
          | inr (l, e3) ↦ inr (
            record {
              plugin_library = library;
              plugin_options = options;
              plugin_alias = alias;
              pfn_close_plugin = g;
              pfn_ok_to_accept_data = k;
              pfn_process_data = l;
              pfn_plugin_command = m.plugin_command;
              plugin_paused = false;
              state = address;
            },
            rw (e0, e1, e2, e3) refl,
          )
        ]
      ]
    ]
  ]

  -- Why a load is refused: there is no library, an entry point is missing, or open_plugin answered
  -- PLUGIN_OPEN_FAIL.
  pub data Refuses (sys : System S) (library : Bytes) (options : Option Bytes) : Type 0 where
    no_library : sys.dlopen library ≡ none → Refuses sys library options
    no_entry :
        (m : Module S) → sys.dlopen library ≡ some m → IsIncomplete m → Refuses sys library options
    not_opened :
        (m : Module S) (opens : Option Bytes → Option (ℤ × S)) (rc : ℤ) (s : S)
        → sys.dlopen library ≡ some m
        → m.open_plugin ≡ some opens
        → opens options ≡ some (rc, s)
        → (rc ==ℤ plugin_open_fail) ≡ true
        → Refuses sys library options

  -- open_plugin reads through NULL.
  pub record Crashes (sys : System S) (library : Bytes) (options : Option Bytes) : Type 0 where
    crash_module : Module S
    crash_opens : Option Bytes → Option (ℤ × S)
    pub crash_found : sys.dlopen library ≡ some crash_module
    pub crash_entry : crash_module.open_plugin ≡ some crash_opens
    pub crash_answer : crash_opens options ≡ none

  -- A load that went through: the new plugin stands at the end of the chain, and its state in its cell.
  pub record Loads (sys : System S) (library : Bytes) (options alias : Option Bytes)
      (w w' : World S) : Type 0 where
    pub library_module : Module S
    pub plugin : Plugin S
    pub state : S
    pub answer : ℤ
    pub found : sys.dlopen library ≡ some library_module
    pub made : IsMade library options alias library_module w.fresh plugin
    pub opens : Option Bytes → Option (ℤ × S)
    pub entry : library_module.open_plugin ≡ some opens
    pub answered : opens options ≡ some (answer, state)
    pub opened : (answer ==ℤ plugin_open_fail) ≡ false
    pub last : w'.plugins ≡ w.plugins ++ plugin ∷ []
    pub held : w'.heap plugin.state ≡ state
    pub commanded : w'.s_commands ≡ add_command plugin w.s_commands
    pub linked : w' ≡ link_plugin plugin state w

  abbrev IsLoaded : System S → Bytes → Option Bytes → Option Bytes → World S → Type 0
  IsLoaded sys library options alias w =
      ((load_plugin sys library options alias w ≡ done (pos 1) w) × Refuses sys library options)
      ⊎ (((load_plugin sys library options alias w ≡ fault) × Crashes sys library options)
          ⊎ ((w' : World S) × (load_plugin sys library options alias w ≡ done (pos 0) w')
              × Loads sys library options alias w w'))

  load_opened :
      (sys : System S) (library : Bytes) (options alias : Option Bytes) (w : World S) (m : Module S)
      (p : Plugin S) (opens : Option Bytes → Option (ℤ × S))
      → sys.dlopen library ≡ some m
      → make_plugin library options alias m w.fresh ≡ some p
      → m.open_plugin ≡ some opens
      → IsLoaded sys library options alias w
  unfolding load_plugin open_and_link link_opened
  load_opened sys library options alias w m p opens e is_p is_f =
      let made = make_plugin-IsMade library options alias m w.fresh p is_p in
      elim (Option-cases (opens options)) [
        | inl none_read ↦ inr (
            inl (
              rw (e, load_plugin, is_p, is_f, made.made_options, none_read) refl,
              record {
                crash_module = m;
                crash_opens = opens;
                crash_found = e;
                crash_entry = is_f;
                crash_answer = none_read;
              },
            ))
        | inr ((rc, s), answered) ↦ elim (Bool-cases (rc ==ℤ plugin_open_fail)) [
          | inl fails ↦ inl (
            rw (e, load_plugin, is_p, is_f, made.made_options, answered, fails) refl,
            not_opened m opens rc s e is_f answered fails,
          )
          | inr opened ↦ inr (
              inr (
                link_plugin p s w,
                rw (e, load_plugin, is_p, is_f, made.made_options, answered, opened) refl,
                record {
                  library_module = m;
                  plugin = p;
                  state = s;
                  answer = rc;
                  found = e;
                  made = made;
                  opens = opens;
                  entry = is_f;
                  answered = answered;
                  opened = opened;
                  last = link-plugins p s w;
                  held = link-state p s w;
                  commanded = (unfold link_plugin in refl);
                  linked = refl;
                },
              ))
        ]
      ]

  -- load_plugin returns 1 and changes nothing, for one of three reasons: there is no library, one of the
  -- entry points that are required is missing, or open_plugin answered PLUGIN_OPEN_FAIL. Or the
  -- open_plugin of the library reads through NULL with these options. Or load_plugin returns 0: then the
  -- library is there, with the entry points, its open_plugin gave another answer, the new plugin,
  -- running, with the options and the alias asked for, stands behind the others in the chain, its cell
  -- holds the state that open_plugin left, and its command, if it has one, has been added.
  pub load_plugin-cases :
      (sys : System S) (library : Bytes) (options alias : Option Bytes) (w : World S)
      → ((load_plugin sys library options alias w ≡ done (pos 1) w) × Refuses sys library options)
        ⊎ (((load_plugin sys library options alias w ≡ fault) × Crashes sys library options)
            ⊎ ((w' : World S) × (load_plugin sys library options alias w ≡ done (pos 0) w')
                × Loads sys library options alias w w'))
  unfolding load_plugin open_and_link
  load_plugin-cases sys library options alias w = elim (Option-cases (sys.dlopen library)) [
    | inl e ↦ inl (rw (e, load_plugin) refl, no_library e)
    | inr (m, e) ↦ elim (make_plugin-cases library options alias m w.fresh) [
      | inl (unmade, incomplete) ↦ inl (rw (e, load_plugin, unmade) refl, no_entry m e incomplete)
      | inr (p, is_p) ↦
          let (opens, is_f, rest) = >>=-eq-some m.open_plugin _ (unfold make_plugin in is_p) in
          load_opened sys library options alias w m p opens e is_p is_f
    ]
  ]
