-- ===== src/Updates/Apply/Complete.antt =====
-- What a completed update of rootfs/usr/lib/rougarou/updates.py has left on the machine.
use rougarou_os.Base.{◌≡◌, false, ◌||◌, List, [], map, ok, Text, has_text, ◌>>◌}
use rougarou_os.Base.Lines.{strip}
use rougarou_os.Updates.Apply.{Before, Answers, Inventory, row_of, new_names}
use rougarou_os.Updates.Apply.Inventories.{ArePlanned}
use rougarou_os.Updates.Apply.Reviewed.{IsReviewed}

-- The packages are those that were and those of the plan, each as it is planned, the marks are those
-- that were and the new packages', and dpkg has nothing to finish.
pub record IsComplete (a : Answers) (before : Before) : Type 0 where
  pub files : List Text
  pub reviewed : IsReviewed a before files
  pub after : Inventory
  pub audit : Text
  pub marks : List Text
  pub marked : a.automatic_after ≡ ok marks
  pub as_marked :
      (name : Text)
      → has_text name marks
        ≡ (has_text name before.automatic_before || has_text name (new_names before.plan.packages))
  pub found : a.inventory_after ≡ ok after
  pub as_planned : ArePlanned before.plan.packages after
  pub no_other :
      (name : Text)
      → has_text name (map (λ p. p.name) before.plan.packages) ≡ false
      → row_of name after ≡ row_of name before.inventory
  pub audited : a.audit ≡ ok audit
  pub finished : strip audit ≡ []
