-- ===== src/Mount/Path.antt =====
-- The path of the configuration file.
use afs_cs.Base.{◌≡◌, arith, ◌++◌, Str, codes, length-append, take_of_length_le}
use afs_cs.Mount.{default_conf_name, build_config_path}

-- The path of the configuration file is the directory, a slash and the name of the file: it is not
-- cut off.
pub build_config_path_lem :
    (basedir : Str) → build_config_path basedir ≡ basedir ++ codes "/" ++ default_conf_name
unfolding build_config_path
build_config_path_lem basedir = take_of_length_le _ _ (
    omega (
      arith,
      length-append (basedir ++ codes "/") default_conf_name,
      length-append basedir (codes "/"),
    ))
