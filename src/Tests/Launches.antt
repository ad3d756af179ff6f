-- ===== src/Tests/Launches.antt =====
-- The theorems on a whole run, with the flags that nobody set.
use argocd_cluster_registrar.Common.{[]}
use argocd_cluster_registrar.Api.Safe.{Safe, Anything, Runs}
use argocd_cluster_registrar.Options.Command.{default_flags}
use argocd_cluster_registrar.Startup.{execute, main}
use argocd_cluster_registrar.Startup.Executed.{MayExecute, Exits, execute-MayExecute, main-Exits}
use argocd_cluster_registrar.Tests.Data.{table}

execute-MayExecute_example :
    Safe (MayExecute table default_flags) Anything [] (execute table default_flags)
execute-MayExecute_example = execute-MayExecute table default_flags

main-Exits_example : Runs (Exits table default_flags) [] (main table default_flags)
main-Exits_example = main-Exits table default_flags
