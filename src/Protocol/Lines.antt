-- ===== src/Protocol/Lines.antt =====
-- The lines that the controller sends, as the daemon's patterns read them.
use ipbench.Prelude.{
  ap, Bool, subst, ℕ, ◌≡◌, ◌≢◌, refl, ◌∙◌, some, [], ◌∷◌, ◌++◌, append_assoc, arith, pos, All,
  All-append, All-mono, not, ◌==◌, true, false, ◌<◌,
}
use ipbench.Python.Text.{or_drop, rstrip, Text, codes, strip, is_space, is_word}
use ipbench.Python.Text.Search.{span-append, Lacks, span-All}
use ipbench.Python.Text.Strip.{
  rstrip_of_not_spaces, lstrip_of_not_space, rstrip-append_space, rstrip-append_not_space,
}
use ipbench.Python.Number.{decimal}
use ipbench.Python.Number.RoundTrip.{decimal-IsDigit, ascii_digit, not_newline}
use ipbench.Python.Codec.{encode, decode}
use ipbench.Python.Codec.Ascii.{decode_ascii, encode_ascii, IsAscii}
use ipbench.Daemon.Commands.{match_load, match_setup, match_command, is_plugin_char}
use ipbench.Controller.Client.{setup_arguments}
use ipbench.Controller.Target.{target_arguments}

-- A line that begins and ends with no space is what `strip` leaves of it and its line feed.
pub strip_line :
    (c : ℕ) (s : Text) (d : ℕ)
    → is_space c ≡ false
    → is_space d ≡ false
    → strip ((c ∷ (s ++ d ∷ [])) ++ b'\n' ∷ []) ≡ c ∷ (s ++ d ∷ [])
unfolding strip is_space
strip_line c s d hc hd =
    rw (lstrip_of_not_space c ((s ++ d ∷ []) ++ b'\n' ∷ []) hc)
      (rstrip-append_space (c ∷ (s ++ d ∷ [])) b'\n' refl ∙ rstrip-append_not_space (c ∷ s) d hd)

-- The command line of SETUP, without its line feed.
abbrev pub setup_text : Text → ℕ → Text → Text
setup_text target port args = codes "SETUP " ++ setup_arguments target (pos port) args

-- The line up to its closing quote.
abbrev front : Text → ℕ → Text → Text
front target port args =
    codes "ETUP target::"
    ++ (target ++ (codes "||port::" ++ (decimal port ++ (codes "||args::\"" ++ args))))

setup_text-front :
    (target : Text) (port : ℕ) (args : Text)
    → b'S' ∷ (front target port args ++ b'"' ∷ []) ≡ setup_text target port args
setup_text-front target port args = rw (append_assoc target, append_assoc (decimal port)) refl

pub strip-setup_text :
    (target : Text) (port : ℕ) (args : Text)
    → strip (setup_text target port args ++ b'\n' ∷ []) ≡ setup_text target port args
unfolding is_space
strip-setup_text target port args =
    subst (λ l. strip (l ++ b'\n' ∷ []) ≡ l) (setup_text-front target port args)
      (strip_line b'S' (front target port args) b'"' refl refl)

-- What holds of the characters of all parts holds of the arguments.
setup_arguments-All :
    (P : ℕ → Type 0) (target : Text) (port : ℕ) (args : Text)
    → All P (codes "target::")
    → All P (codes "||port::")
    → All P (codes "||args::\"")
    → All P (codes "\"")
    → All P target
    → All P (decimal port)
    → All P args
    → All P (setup_arguments target (pos port) args)
setup_arguments-All P target port args h1 h2 h3 h4 ht hp ha = All-append P (codes "target::") _ h1 (
    All-append P target _ ht (
      All-append P (codes "||port::") _ h2 (
        All-append P (decimal port) _ hp
          (All-append P (codes "||args::\"") _ h3 (All-append P args (codes "\"") ha h4)))))

pub setup_text-IsAscii :
    (target : Text) (port : ℕ) (args : Text)
    → IsAscii target
    → IsAscii args
    → IsAscii (setup_text target port args ++ b'\n' ∷ [])
setup_text-IsAscii target port args ht ha =
    All-append (λ c. c < 0x80) (setup_text target port args) (b'\n' ∷ [])
      (All-append (λ c. c < 0x80) (codes "SETUP ") (setup_arguments target (pos port) args)
        (omega arith)
        (setup_arguments-All (λ c. c < 0x80) target port args (omega arith) (omega arith)
          (omega arith) (omega arith) ht
          (All-mono (decimal port) ascii_digit (decimal-IsDigit port)) ha))
      (omega arith, tt)

-- A word and an argument behind one space.
match_command_word :
    (test : ℕ → Bool) (c : ℕ) (word arg : Text)
    → All (λ d. is_word d ≡ true) (c ∷ word)
    → All (λ d. test d ≡ true) arg
    → arg ≢ []
    → match_command test ((c ∷ word) ++ b' ' ∷ arg) ≡ some (c ∷ word, arg)
unfolding match_command is_word
match_command_word test c word [] hw ha h = absurd (h refl)
match_command_word test c word (e ∷ arg) hw ha h =
    rw (span-append is_word (c ∷ word) b' ' (e ∷ arg) hw refl, span-All test (e ∷ arg) ha) refl

not_newline_test : (c : ℕ) → c ≢ b'\n' → not (c == b'\n') ≡ true
not_newline_test c h = ground arith

setup_arguments-ne-nil :
    (target : Text) (port : ℕ) (args : Text) → setup_arguments target (pos port) args ≢ []
setup_arguments-ne-nil target port args e = cc

pub match_setup-setup_text :
    (target : Text) (port : ℕ) (args : Text)
    → Lacks b'\n' target
    → Lacks b'\n' args
    → match_setup (setup_text target port args)
      ≡ some (codes "SETUP", setup_arguments target (pos port) args)
unfolding match_setup is_word
match_setup-setup_text target port args ht ha =
    let whole =
      setup_arguments-All (λ c. c ≢ b'\n') target port args (omega arith) (omega arith)
        (omega arith) (omega arith) ht (All-mono (decimal port) not_newline (decimal-IsDigit port))
        ha in
    match_command_word (λ c. not (c == b'\n')) b'S' (codes "ETUP")
      (setup_arguments target (pos port) args) (refl, (refl, (refl, (refl, (refl, tt)))))
      (All-mono (setup_arguments target (pos port) args) not_newline_test whole)
      (setup_arguments-ne-nil target port args)

-- The line of LOAD, for a plugin's name.
abbrev pub load_text : Text → Text
load_text name = codes "LOAD " ++ name

plugin_char : (c : ℕ) → is_word c ≡ true → is_plugin_char c ≡ true
unfolding is_plugin_char is_word is_space
plugin_char c h = ground arith

pub match_load-load_text :
    (name : Text)
    → All (λ c. is_word c ≡ true) name
    → name ≢ []
    → match_load (load_text name) ≡ some (codes "LOAD", name)
unfolding match_load is_word
match_load-load_text name h ne =
    match_command_word is_plugin_char b'L' (codes "OAD") name (refl, (refl, (refl, (refl, tt))))
      (All-mono name plugin_char h) ne

word_not_space : (c : ℕ) → is_word c ≡ true → is_space c ≡ false
unfolding is_word is_space
word_not_space c h = ground arith

word_ascii : (c : ℕ) → is_word c ≡ true → c < 0x80
unfolding is_word
word_ascii c h = ground arith

pub load_text-IsAscii :
    (name : Text) → All (λ c. is_word c ≡ true) name → IsAscii (load_text name ++ b'\n' ∷ [])
load_text-IsAscii name h =
    All-append (λ c. c < 0x80) (load_text name) (b'\n' ∷ [])
      (All-append (λ c. c < 0x80) (codes "LOAD ") name (omega arith) (All-mono name word_ascii h))
      (omega arith, tt)

pub strip-load_text :
    (name : Text)
    → All (λ c. is_word c ≡ true) name
    → name ≢ []
    → strip (load_text name ++ b'\n' ∷ []) ≡ load_text name
unfolding strip is_space rstrip
strip-load_text [] h ne = absurd (ne refl)
strip-load_text (c ∷ name) h ne =
    ap (λ (l : Text). rstrip l)
      (lstrip_of_not_space b'L' (codes "OAD " ++ ((c ∷ name) ++ b'\n' ∷ [])) refl)
    ∙ rstrip-append_space (load_text (c ∷ name)) b'\n' refl
    ∙ ap (λ (l : Text). or_drop b'L' (or_drop b'O' (or_drop b'A' (or_drop b'D' (or_drop b' ' l)))))
        (rstrip_of_not_spaces (c ∷ name) (All-mono (c ∷ name) word_not_space h))

-- A line of ASCII that is sent is read as it is.
pub decode-encode_ascii : (s : Text) → IsAscii s → decode (encode s) ≡ some s
decode-encode_ascii s h = rw (encode_ascii s h) (decode_ascii s h)

-- The command line of SETUP for a target.
abbrev pub target_text : Text → Text
target_text args = codes "SETUP " ++ target_arguments args

pub target_text-IsAscii : (args : Text) → IsAscii args → IsAscii (target_text args ++ b'\n' ∷ [])
target_text-IsAscii args h =
    All-append (λ c. c < 0x80) (target_text args) (b'\n' ∷ [])
      (All-append (λ c. c < 0x80) (codes "SETUP args::\"") (args ++ codes "\"") (omega arith)
        (All-append (λ c. c < 0x80) args (codes "\"") h (omega arith)))
      (omega arith, tt)

pub strip-target_text : (args : Text) → strip (target_text args ++ b'\n' ∷ []) ≡ target_text args
unfolding is_space
strip-target_text args = strip_line b'S' (codes "ETUP args::\"" ++ args) b'"' refl refl

pub match_setup-target_text :
    (args : Text)
    → Lacks b'\n' args
    → match_setup (target_text args) ≡ some (codes "SETUP", target_arguments args)
unfolding match_setup is_word
match_setup-target_text args h =
    let whole =
      All-append (λ c. c ≢ b'\n') (codes "args::\"") (args ++ codes "\"") (omega arith)
        (All-append (λ c. c ≢ b'\n') args (codes "\"") h (omega arith)) in
    match_command_word (λ c. not (c == b'\n')) b'S' (codes "ETUP") (target_arguments args)
      (refl, (refl, (refl, (refl, (refl, tt)))))
      (All-mono (target_arguments args) not_newline_test whole) (λ e. cc)
