-- ===== src/Wrapper/CommandLine.antt =====
-- What urfave/cli documents of the command lines that it accepts, for the words that the shim writes:
-- long names, each value in a word of its own, and the first word without a dash ends the flags.
use embedshim.Prelude.{
  String, Option, some, List, [], ◌∷◌, ◌≡◌, str_eq, cat, codes, has_prefix, if◌then◌else◌,
}
use embedshim.Wrapper.Args.{Shell, Cli}
use embedshim.Wrapper.Flags.{Flag, FlagType, bool_flag, app_flags, exec_flags}

-- what a word of the command line is
pub data Word : Type 0 where
  takes_value : Word
  is_switch : Word
  unknown : Word
  plain : Word

abbrev word_of : FlagType → Word
word_of bool_flag = is_switch
word_of _ = takes_value

abbrev find_flag : List Flag → String → Word
find_flag [] w = unknown
find_flag (f ∷ fs) w =
    let rest = find_flag fs w in if str_eq w (cat "--" f.name) then word_of f.type else rest

abbrev pub kind_of : List Flag → String → Word
kind_of fs w = if has_prefix (codes w) (codes "-") then find_flag fs w else plain

-- the words of flags that are given, with their values
abbrev pub Given : Type 0
Given = List (String × String)

-- `Reads fs ws given rest`: the words `ws` give the flags `given`, and `rest` are the arguments
pub data Reads (fs : List Flag) : List String → Given → List String → Type 0 where
  value_given :
      {w v : String} {ws : List String} {given : Given} {rest : List String}
      → kind_of fs w ≡ takes_value
      → Reads fs ws given rest
      → Reads fs (w ∷ v ∷ ws) ((w, v) ∷ given) rest
  switch_given :
      {w : String} {ws : List String} {given : Given} {rest : List String}
      → kind_of fs w ≡ is_switch
      → Reads fs ws given rest
      → Reads fs (w ∷ ws) ((w, "true") ∷ given) rest
  flags_end : {w : String} {ws : List String} → kind_of fs w ≡ plain → Reads fs (w ∷ ws) [] (w ∷ ws)

-- the value that was given last, if there is one
abbrev pub given_or : String → Given → String → String
given_or n [] v = v
given_or n ((w, v) ∷ given) d =
    let last = given_or n given (if str_eq w (cat "--" n) then v else d) in last

abbrev default_of : List Flag → String → String
default_of [] n = ""
default_of (f ∷ fs) n = let rest = default_of fs n in if str_eq f.name n then f.value else rest

abbrev pub value_of : List Flag → Given → String → String
value_of fs given n = given_or n given (default_of fs n)

-- the command line with these flags before the subcommand and after it
unfoldable pub cli_of : Shell → Given → Given → String → Cli
cli_of shell globals locals cid = record {
  global_string = value_of (app_flags shell) globals;
  global_bool = λ n. str_eq (value_of (app_flags shell) globals n) "true";
  string = value_of exec_flags locals;
  bool = λ n. str_eq (value_of exec_flags locals n) "true";
  first = cid;
}

-- `run` is app.Run up to the action of execCommand
pub record Accepts (shell : Shell) (run : List String → Option Cli) : Type 0 where
  pub reads :
      (words words' : List String) (globals locals : Given) (cid : String) (more : List String)
      → Reads (app_flags shell) words globals ("exec" ∷ words')
      → Reads exec_flags words' locals (cid ∷ more)
      → run words ≡ some (cli_of shell globals locals cid)
