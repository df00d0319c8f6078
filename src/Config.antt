-- ===== src/Config.antt =====
-- The configuration, internal/config/config.go: its defaults, its checks, and where it mounts. The
-- reading of YAML is left out; a number is not negative.
pub mod Mount
mod Samples
use livegit.Prelude.{
  ℕ, Bool, true, false, not, ◌&&◌, ◌||◌, Option, none, some, List, [], ◌∷◌, ◌++◌, Bytes, codes,
  ◌==◌, bytes_eq, nat_eq, if◌then◌else◌,
}
use livegit.Prefix.{slash, head_is}
use livegit.Paths.{base, dir, clean, trim_right, join_path}

-- `Role`
pub data Role : Type 0 where
  role_ghost role_source : Role
  role_other : Bytes → Role

-- `Config`; no list of commands is an absent one.
pub record Config : Type 0 where
  pub role : Role
  pub host : Bytes
  pub remote_root : Bytes
  pub user : Bytes
  pub port : ℕ
  pub agent_bin : Bytes
  pub ssh_mode : Bytes
  pub control_persist : Bytes
  pub local_root : Bytes
  pub evict_after_idle_minutes : ℕ
  pub max_cache_size_gb : ℕ
  pub auto_remote_commands : Option (List Bytes)
  pub default_target : Bytes
  pub log_level : Bytes

abbrev pub or_else : Bytes → Bytes → Bytes
or_else s other = if s == [] then other else s

abbrev pub number_or : ℕ → ℕ → ℕ
number_or n other = if n == 0 then other else n

abbrev pub default_commands : List Bytes
default_commands =
    codes "ls"
    ∷ codes "cat"
    ∷ codes "tree"
    ∷ codes "head"
    ∷ codes "tail"
    ∷ codes "less"
    ∷ codes "grep"
    ∷ codes "find"
    ∷ codes "stat"
    ∷ codes "wc"
    ∷ codes "file"
    ∷ []

abbrev commands_or : Option (List Bytes) → List Bytes → List Bytes
commands_or none other = other
commands_or (some commands) other = commands

-- `applyDefaults`, with $USER
unfoldable pub apply_defaults : Bytes → Config → Config
apply_defaults user c = record c {
  port = number_or c.port 22;
  user = or_else c.user user;
  agent_bin = or_else c.agent_bin (codes "lg");
  ssh_mode = or_else c.ssh_mode (codes "system");
  control_persist = or_else c.control_persist (codes "8h");
  evict_after_idle_minutes = number_or c.evict_after_idle_minutes 30;
  max_cache_size_gb = number_or c.max_cache_size_gb 10;
  auto_remote_commands = some (commands_or c.auto_remote_commands default_commands);
  default_target = or_else c.default_target (codes "local");
  log_level = or_else c.log_level (codes "info");
}

-- How `Validate` answers.
pub data Verdict : Type 0 where
  valid bad_role local_root_not_absolute no_host remote_root_not_absolute : Verdict

abbrev is_abs : Bytes → Bool
is_abs p = head_is slash p

unfoldable pub validate_ghost : Config → Verdict
unfolding head_is
validate_ghost c =
    if not (c.local_root == []) && not (is_abs c.local_root)
    then local_root_not_absolute
    else if c.host == []
    then no_host
    else if c.remote_root == [] || not (is_abs c.remote_root)
    then remote_root_not_absolute
    else valid

unfoldable pub validate_role : Role → Config → Verdict
unfolding validate_ghost
validate_role role_ghost c = validate_ghost c
validate_role role_source c = valid
validate_role (role_other name) c = bad_role

-- `Validate`
unfoldable pub validate : Config → Verdict
unfolding validate_role
validate c = validate_role c.role c

-- `MountDir`, from the `.lg` directory
unfoldable pub mount_dir : Bytes → Config → Bytes
unfolding base dir clean trim_right join_path
mount_dir lg c =
    if not (c.local_root == [])
    then clean c.local_root
    else join_path (dir lg) (base (trim_right c.remote_root))
