-- ===== src/Tests/Faults.antt =====
-- The theorems about the configuration and the injections at concrete inputs.
use afs_cs.Base.{◌%◌, ◌≡◌, refl, ◌&&◌, ◌==◌, List, [], some, leb, codes, str_eq, ◌↔◌, pos}
use afs_cs.Base.Run.{Ensures, Ends}
use afs_cs.Build.{op_mkdir, op_name}
use afs_cs.Build.Names.{spelled, op_name-eq-spelled}
use afs_cs.Queue.{errinj_noop, ErrinjConf}
use afs_cs.System.Accounts.{bit, Accounts, HeapOnly, KeepsConf}
use afs_cs.Config.{
  errinj_type_by_name, to_errinj_type, conf_option_handler, config_init, config_delete,
}
use afs_cs.Config.Names.{section_name, to_errinj_type_iff}
use afs_cs.Config.Ownership.{held_entries}
use afs_cs.Config.Spec.{Handled}
use afs_cs.Config.Handler.{conf_option_handler-Handled}
use afs_cs.Config.Lifecycle.{Loaded, config_init-Accounts, config_delete-Accounts}
use afs_cs.Config.Distinct.{IsDistinct}
use afs_cs.Errinj.{matched, is_selected, error_inject}
use afs_cs.Errinj.Reread.{IsReadFrom, error_inject-Read}
use afs_cs.Errinj.Total.{Injected, error_inject_total, Overruns}
use afs_cs.Errinj.Quiet.{is_selected_lem}
use afs_cs.Config.File.{conf_option_handler-IsDistinct, Read, config_init-Read}
use afs_cs.Tests.Kernel.{
  toy, toy_ini, toy_build, configured, unconfigured, noop_mkdir, toy_queue, config_path,
}
use afs_cs.Tests.Setup.{
  directory, mkdir_on, queue-Accounts, entries-Accounts, empty-Accounts, queue-IsDistinct,
  configured-IsSafe, toy_grants,
}

error_inject_total_example :
    Ends
      (Overruns toy directory op_mkdir configured)
      (λ rc t. Injected (λ _. 0) op_mkdir configured rc t)
      (error_inject toy directory op_mkdir configured)
error_inject_total_example =
    error_inject_total toy op_mkdir mkdir_on directory configured configured-IsSafe refl

conf_option_handler-Handled_example :
    Ensures
      (λ (rc, q') u.
        Accounts (λ a. bit (0 == a)) u.heap (held_entries q')
        × Handled toy
            (codes "errinj_errno")
            (codes "probability")
            (codes "50")
            toy_queue.entries
            rc
            q'
        × HeapOnly configured u)
      (conf_option_handler toy toy_queue.entries
        (codes "errinj_errno")
        (codes "probability")
        (codes "50")
        configured)
conf_option_handler-Handled_example =
    conf_option_handler-Handled toy toy_queue.entries (codes "errinj_errno") (codes "probability")
      (codes "50") configured entries-Accounts

config_init-Accounts_example :
    Ensures
      (λ q u. Loaded (λ _. 0) q u.heap × KeepsConf unconfigured u)
      (config_init toy config_path unconfigured)
config_init-Accounts_example = config_init-Accounts toy config_path unconfigured empty-Accounts

config_delete-Accounts_example :
    Ensures
      (λ _ t. Accounts (λ _. 0) t.heap (λ _. 0) × HeapOnly configured t)
      (config_delete toy (some toy_queue) configured)
config_delete-Accounts_example =
    config_delete-Accounts toy (some toy_queue) configured queue-Accounts

conf_option_handler-IsDistinct_example :
    Ensures
      (λ (_, q') u. IsDistinct q')
      (conf_option_handler toy toy_queue.entries
        (codes "errinj_noop")
        (codes "probability")
        (codes "5")
        configured)
conf_option_handler-IsDistinct_example =
    conf_option_handler-IsDistinct toy toy_queue.entries (codes "errinj_noop") (codes "probability")
      (codes "5") configured entries-Accounts queue-IsDistinct

is_selected_lem_example :
    is_selected toy noop_mkdir directory op_mkdir configured
    ≡ some (
      leb ((toy.rand configured.rng).0 % 101) noop_mkdir.probability
          && (matched toy noop_mkdir.path_regexp directory
              && matched toy noop_mkdir.op_regexp (spelled op_mkdir)),
      record configured { rng = (toy.rand configured.rng).1 },
    )
is_selected_lem_example = is_selected_lem toy noop_mkdir directory op_mkdir configured mkdir_on

op_name-eq-spelled_example : op_name toy_build op_mkdir ≡ some (spelled op_mkdir)
op_name-eq-spelled_example = op_name-eq-spelled toy_build op_mkdir mkdir_on

to_errinj_type_iff_example :
    (to_errinj_type (errinj_type_by_name (codes "errinj_noop")) ≡ some errinj_noop)
    ↔ (codes "errinj_noop" ≡ section_name errinj_noop)
to_errinj_type_iff_example = to_errinj_type_iff (codes "errinj_noop") errinj_noop

config_init-Read_example :
    Ensures
      (λ q u.
        (entries : List ErrinjConf) × (q ≡ some (record { block = 0; entries = entries }))
        × Read toy toy_ini [] entries)
      (config_init toy config_path unconfigured)
unfolding str_eq
config_init-Read_example =
    config_init-Read toy config_path toy_ini unconfigured empty-Accounts refl refl refl

error_inject-Read_example :
    Ensures
      (λ rc t. (rc ≡ pos 0) × IsReadFrom toy toy_grants toy_ini configured t)
      (error_inject toy config_path op_mkdir configured)
unfolding str_eq
error_inject-Read_example =
    error_inject-Read toy toy_grants config_path op_mkdir toy_ini configured configured-IsSafe refl
      refl refl refl
