-- ===== src/Posting/Commands.antt =====
-- The commands of the buttons of runtime/channel_manager.py, as `admin_callback` splits them.
use Prim.Native.Char.{code}
use masih_panel.Base.Text.{str}
use masih_panel.Base.{◌<>◌, refl, ◌≡◌, ℕ, ◌==◌, if◌then◌else◌, String, str_eq, Option, none, some}
use masih_panel.Base.Text.Numerals.{read_nat}

pub data PostCommand : Type 0 where
  view edit approve reject other : PostCommand

-- The operation of a callback; those that name a post carry its number, and 0 stands for a text that
-- is no number.
pub data Command : Type 0 where
  home models config verify resume pause pending draft : Command
  model : Option String → Command
  on_post : PostCommand → ℕ → Command

-- the name of an operation on a post in a callback
abbrev pub op_name : PostCommand → String
op_name PostCommand.view = "view"
op_name PostCommand.edit = "edit"
op_name PostCommand.approve = "approve"
op_name PostCommand.reject = "reject"
op_name PostCommand.other = ""

-- the callback of a button for a post
abbrev pub post_callback : PostCommand → ℕ → String
post_callback op ident = "ch" <> (":" <> (op_name op <> (":" <> str ident)))

-- the text before the first colon
unfoldable pub before_colon : String → String
before_colon String.[] = ""
before_colon (String.◌∷◌ c s) =
    let rest = before_colon s in if code c == 58 then "" else String.◌∷◌ c rest

-- the text after the first colon, if there is one
unfoldable pub after_colon : String → Option String
after_colon String.[] = none
after_colon (String.◌∷◌ c s) = let rest = after_colon s in if code c == 58 then some s else rest

-- `int(part)` if `part.isdigit()`, and 0 otherwise
abbrev number_or_zero : Option ℕ → ℕ
number_or_zero none = 0
number_or_zero (some n) = n

unfoldable pub ident_of : Option String → ℕ
unfolding read_nat before_colon
ident_of none = 0
ident_of (some s) = number_or_zero (read_nat (before_colon s))

abbrev post_command : String → PostCommand
post_command op =
    if str_eq op "view"
    then PostCommand.view
    else if str_eq op "edit"
    then PostCommand.edit
    else if str_eq op "approve"
    then PostCommand.approve
    else if str_eq op "reject"
    then PostCommand.reject
    else PostCommand.other

-- the operation and what stands after it
unfoldable pub command_of : String → Option String → Command
unfolding ident_of
command_of op rest =
    if str_eq op "home"
    then Command.home
    else if str_eq op "models"
    then Command.models
    else if str_eq op "model"
    then Command.model rest
    else if str_eq op "config"
    then Command.config
    else if str_eq op "verify"
    then Command.verify
    else if str_eq op "resume"
    then Command.resume
    else if str_eq op "pause"
    then Command.pause
    else if str_eq op "pending"
    then Command.pending
    else if str_eq op "draft"
    then Command.draft
    else Command.on_post (post_command op) (ident_of rest)

-- what follows the first part of a callback
unfoldable pub command_in : Option String → Command
unfolding after_colon before_colon command_of
command_in none = Command.home
command_in (some rest) = command_of (before_colon rest) (after_colon rest)

-- `parts` of a callback, and the operation that they name
unfoldable pub parse_command : String → Command
unfolding command_in after_colon
parse_command cmd = command_in (after_colon cmd)

parses : parse_command "ch:edit:17" ≡ Command.on_post PostCommand.edit 17
unfolding parse_command read_nat
parses = refl
