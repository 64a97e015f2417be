-- ===== src/Files.antt =====
-- Files that are replaced as a whole (logcenter/outbox.go, `replaceFile`). A file is its content, or
-- `none` where it does not exist. Which calls of the operating system fail is an argument.
use logcenter_sdk_go.Base.{Bool, Option, none, some, if◌then◌else◌}
use logcenter_sdk_go.Errors.{Error, failure}

pub record ReplaceFaults : Type 0 where
  pub remove_fails : Bool
  pub rename_fails : Bool

-- The target is removed first; that it does not exist is no failure.
unfoldable pub replace_file {ℓ} :
    {A : Type ℓ} → ReplaceFaults → A → Option A → Option A × Option Error
replace_file faults source target =
    if faults.remove_fails
    then (target, some (failure "remove old outbox"))
    else if faults.rename_fails
    then (none, some (failure "replace outbox"))
    else (some source, none)
