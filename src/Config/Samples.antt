-- ===== src/Config/Samples.antt =====
-- A configuration of a whole remote host, and one of a repository on it.
use livegit.Prelude.{◌≡◌, refl, none, [], ◌∷◌, codes, bytes_beq}
use livegit.Prefix.{slash}
use livegit.Config.{Config, role_ghost, remote_root_not_absolute, validate, mount_dir}

abbrev whole_host : Config
whole_host = record {
  role = role_ghost;
  host = codes "lab";
  remote_root = slash ∷ [];
  user = [];
  port = 0;
  agent_bin = [];
  ssh_mode = [];
  control_persist = [];
  local_root = [];
  evict_after_idle_minutes = 0;
  max_cache_size_gb = 0;
  auto_remote_commands = none;
  default_target = [];
  log_level = [];
}

abbrev repository : Config
repository = record whole_host { remote_root = codes "/srv/w/" }

beside : mount_dir (codes "/p/.lg") repository ≡ codes "/p/w"
unfolding mount_dir bytes_beq
beside = refl

relative_root : validate (record repository { remote_root = codes "w" }) ≡ remote_root_not_absolute
unfolding validate bytes_beq
relative_root = refl
