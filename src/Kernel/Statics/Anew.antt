-- ===== src/Kernel/Statics/Anew.antt =====
-- A build after `System::reset`.
use sputter_os.Prelude.{Option, none, some}
use sputter_os.Builder.Checks.{BuildError}
use sputter_os.Builder.Build.{Static}
use sputter_os.Kernel.Statics.Alike.{Known, known, Alike}

-- What the caller of `build` gets, and the system that he then has.
abbrev pub verdict :
    {F C : Type 0} → Option (Option BuildError × Static F C) → Option (Option BuildError × Known C)
verdict none = none
verdict (some (error, b)) = some (error, known b)
