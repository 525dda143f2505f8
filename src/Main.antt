-- ===== src/Main.antt =====
-- rm/src/main.cpp: the options of the command line and the level of the log. getopt_long is a parameter:
-- what it returns, one option after the other.
pub mod Shutdown
pub mod Interrupt
use konro.Base.{Option, none, some, List, [], ◌∷◌, if◌then◌else◌}
use konro.NumericValue.{same_text}
use konro.Text.{Bytes, codes}

pub data CommandOption : Type 0 where
  config_option : Bytes → CommandOption
  loglevel_option : Option Bytes → CommandOption
  unknown_option : CommandOption

pub record Arguments : Type 0 where
  pub config_file : Bytes
  pub log_level : Bytes

abbrev pub no_arguments : Arguments
no_arguments = record { config_file = []; log_level = codes "DEBUG" }

-- `none` is the exit with a failure.
unfoldable pub read_options : List CommandOption → Arguments → Option Arguments
read_options [] a = some a
read_options (config_option path ∷ os) a = read_options os (record a { config_file = path })
read_options (loglevel_option none ∷ os) a = read_options os a
read_options (loglevel_option (some level) ∷ os) a =
    read_options os (record a { log_level = level })
read_options (unknown_option ∷ os) a = none

pub data PriorityLevel : Type 0 where
  fatal alert crit error warn notice info debug notset : PriorityLevel

-- INFO for the empty text and for a text that is no level.
unfoldable pub priority_of : Bytes → PriorityLevel
priority_of level =
    if same_text level (codes "FATAL")
    then fatal
    else if same_text level (codes "ALERT")
    then alert
    else if same_text level (codes "CRIT")
    then crit
    else if same_text level (codes "ERROR")
    then error
    else if same_text level (codes "WARN")
    then warn
    else if same_text level (codes "NOTICE")
    then notice
    else if same_text level (codes "INFO")
    then info
    else if same_text level (codes "DEBUG")
    then debug
    else if same_text level (codes "NOTSET")
    then notset
    else info
