-- ===== src/Wrapper/Reading.antt =====
-- pkg/runcext/utils.go and cmd/embedshim-runcext: the wrapper reads back what the shim has written.
use mathlib.Core.List.{append_assoc}
use embedshim.Prelude.{
  ap, sym, eq_iff, String, List, [], ◌∷◌, ◌++◌, ◌≡◌, refl, str_eq, Bool-cases, inl, inr, Bool, true,
  false, if◌then◌else◌, none, cat, ◌∙◌,
}
use embedshim.RuncExt.Command.{Runc, command_of, runtime_args, option_args, switch_args}
use embedshim.Wrapper.Args.{Shell}
use embedshim.Wrapper.Flags.{Flag, app_flags}
use embedshim.Wrapper.CommandLine.{
  Reads, Given, given_or, kind_of, takes_value, is_switch, value_given, switch_given, flags_end,
  cli_of,
}
use embedshim.Wrapper.Forwarding.{IsParsed}

abbrev option_given : String → String → Given
option_given w v = if str_eq v "" then [] else (w, v) ∷ []

abbrev switch_given_if : String → Bool → Given
switch_given_if w b = if b then (w, "true") ∷ [] else []

module _ {fs : List Flag} {ws : List String} {given : Given} {rest : List String} where
  option-Reads :
      (w v : String)
      → kind_of fs w ≡ takes_value
      → Reads fs ws given rest
      → Reads fs (option_args w v ++ ws) (option_given w v ++ given) rest
  option-Reads w v k r = elim (Bool-cases (str_eq v "")) [
    | inl e ↦ rw e r
    | inr e ↦ rw e (value_given k r)
  ]

  switch-Reads :
      (w : String) (b : Bool)
      → kind_of fs w ≡ is_switch
      → Reads fs ws given rest
      → Reads fs (switch_args w b ++ ws) (switch_given_if w b ++ given) rest
  switch-Reads w true k r = switch_given k r
  switch-Reads w false k r = r

-- the words of the shim's command line for the flags of the wrapper
abbrev pub globals_words : Runc → List String → List String
globals_words r ws =
    option_args "--root" r.root
    ++ (switch_args "--debug" r.debug
        ++ (option_args "--log" r.log
            ++ (option_args "--log-format" r.log_format
                ++ (switch_args "--systemd-cgroup" r.systemd_cgroup ++ ws))))

-- the flags that they give
abbrev pub globals_of : Runc → Given
globals_of r =
    option_given "--root" r.root
    ++ (switch_given_if "--debug" r.debug
        ++ (option_given "--log" r.log
            ++ (option_given "--log-format" r.log_format
                ++ (switch_given_if "--systemd-cgroup" r.systemd_cgroup
                    ++ ("--command", command_of r) ∷ []))))

pub runtime_args-globals :
    (r : Runc) (ws : List String)
    → r.criu ≡ ""
    → r.rootless ≡ none
    → runtime_args r ++ ws ≡ globals_words r ws
unfolding runtime_args
runtime_args-globals r ws c l = rw c (rw l (simp (append_assoc) refl))

pub globals-Reads :
    (shell : Shell) (r : Runc) (ws : List String)
    → Reads
        (app_flags shell)
        (globals_words r ("--command" ∷ command_of r ∷ "exec" ∷ ws))
        (globals_of r)
        ("exec" ∷ ws)
unfolding app_flags
globals-Reads shell r ws = option-Reads "--root" r.root refl (
    switch-Reads "--debug" r.debug refl (
      option-Reads "--log" r.log refl (
        option-Reads "--log-format" r.log_format refl (
          switch-Reads "--systemd-cgroup" r.systemd_cgroup refl
            (value_given refl (flags_end refl))))))

-- a flag of the given word and value, read for the name `n`
abbrev over : String → String → String → String → String
over n w v d = if str_eq v "" then d else if str_eq w (cat "--" n) then v else d

abbrev over_switch : String → String → Bool → String → String
over_switch n w b d = if b then (if str_eq w (cat "--" n) then "true" else d) else d

module _ (n w : String) (g : Given) (d : String) where
  option-given_or :
      (v : String) → given_or n (option_given w v ++ g) d ≡ given_or n g (over n w v d)
  option-given_or v = elim (Bool-cases (str_eq v "")) [ inl e ↦ rw e refl | inr e ↦ rw e refl ]

  switch-given_or :
      (b : Bool) → given_or n (switch_given_if w b ++ g) d ≡ given_or n g (over_switch n w b d)
  switch-given_or true = refl
  switch-given_or false = refl

globals-given_or :
    (r : Runc) (n d : String)
    → given_or n (globals_of r) d
      ≡ given_or n (("--command", command_of r) ∷ []) (
          over_switch n "--systemd-cgroup" r.systemd_cgroup (
            over n "--log-format" r.log_format
              (over n "--log" r.log (over_switch n "--debug" r.debug (over n "--root" r.root d)))))
globals-given_or r n d = rw (option-given_or n "--root" _ d r.root) (
    rw (switch-given_or n "--debug" _ _ r.debug) (
      rw (option-given_or n "--log" _ _ r.log) (
        rw (option-given_or n "--log-format" _ _ r.log_format)
          (switch-given_or n "--systemd-cgroup" _ _ r.systemd_cgroup))))

-- a flag of another name is passed over
passes : (n w v d : String) → str_eq w (cat "--" n) ≡ false → over n w v d ≡ d
passes n w v d e = elim (Bool-cases (str_eq v "")) [ inl h ↦ rw h refl | inr h ↦ rw h (rw e refl) ]

passes_switch :
    (n w : String) (b : Bool) (d : String) → str_eq w (cat "--" n) ≡ false → over_switch n w b d ≡ d
passes_switch n w true d e = rw e refl
passes_switch n w false d e = refl

over-empty : (n w v : String) → str_eq w (cat "--" n) ≡ true → over n w v "" ≡ v
over-empty n w v e = elim (Bool-cases (str_eq v "")) [
  | inl h ↦ rw h (sym ((eq_iff v "").0 h))
  | inr h ↦ rw h (rw e refl)
]

reads_switch :
    (n w : String) (b : Bool)
    → str_eq w (cat "--" n) ≡ true
    → str_eq (over_switch n w b "") "true" ≡ b
reads_switch n w true e = rw e refl
reads_switch n w false e = refl

pub globals-IsParsed :
    (shell : Shell) (r : Runc) (given : Given) (cid : String)
    → IsParsed r (cli_of shell (globals_of r) given cid)
unfolding cli_of app_flags
globals-IsParsed shell r given cid = record {
  command = globals-given_or r "command" "runc";
  root = λ e.
      globals-given_or r "root" _
      ∙ passes_switch "root" "--systemd-cgroup" r.systemd_cgroup _ refl
      ∙ passes "root" "--log-format" r.log_format _ refl
      ∙ passes "root" "--log" r.log _ refl
      ∙ passes_switch "root" "--debug" r.debug _ refl
      ∙ rw e refl;
  log =
      globals-given_or r "log" _
      ∙ passes_switch "log" "--systemd-cgroup" r.systemd_cgroup _ refl
      ∙ passes "log" "--log-format" r.log_format _ refl
      ∙ ap (over "log" "--log" r.log)
          (passes_switch "log" "--debug" r.debug _ refl ∙ passes "log" "--root" r.root _ refl)
      ∙ over-empty "log" "--log" r.log refl;
  log_format = λ e.
      globals-given_or r "log-format" _
      ∙ passes_switch "log-format" "--systemd-cgroup" r.systemd_cgroup _ refl
      ∙ rw e refl;
  systemd_cgroup =
      ap (λ v. str_eq v "true")
        (globals-given_or r "systemd-cgroup" _
          ∙ ap (over_switch "systemd-cgroup" "--systemd-cgroup" r.systemd_cgroup) (
              passes "systemd-cgroup" "--log-format" r.log_format _ refl
              ∙ passes "systemd-cgroup" "--log" r.log _ refl
              ∙ passes_switch "systemd-cgroup" "--debug" r.debug _ refl
              ∙ passes "systemd-cgroup" "--root" r.root _ refl))
      ∙ reads_switch "systemd-cgroup" "--systemd-cgroup" r.systemd_cgroup refl;
}
