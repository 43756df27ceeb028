-- ===== src/Process/Image/Tests.antt =====
-- The exec of a small image: two pages of stack, one of code and one of heap.
use sye.Base.{◌≡◌, refl, some, arith}
use sye.Mmu.ShortFormat.{short_format, short_format-IsMmu}
use sye.Process.Args.{Memory}
use sye.Process.Image.{Space, setup_proc_image_replace}
use sye.Process.Image.Exec.{Loaded, setup_proc_image_replace-Loaded}
use sye.Process.Image.Sample.{zeros, ls, env, small, space, space-CanLoad, small-Fits}

setup_proc_image_replace-Loaded_example :
    (s' : Space) × (m' : Memory) × (setup_proc_image_replace short_format small 256 0x4000 0x10000
        0x1000 1 1
        (some ls)
        (some env)
        (λ m. m)
        zeros
        space
      ≡ some (s', m'))
    × Loaded short_format short_format-IsMmu small 2 1 1 0x1000 ls env space s' m'
setup_proc_image_replace-Loaded_example =
    setup_proc_image_replace-Loaded short_format short_format-IsMmu small 256 0x4000 0x10000 0x1000
      1 ls (some env) (λ m. m) zeros space (omega arith) (omega arith) (omega arith) (omega arith)
      (omega arith) (λ m' b p q. refl) small-Fits space-CanLoad
