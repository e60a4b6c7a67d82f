-- ===== src/Paging/Physical/Tests.antt =====
-- setup_physical_map from tables that map the first gigabyte to itself.
use learning_osdev.Base.{◌*◌, ◌^◌, ◌≡◌, refl, arith, some}
use learning_osdev.Paging.{Paging}
use learning_osdev.Paging.Physical.{setup_physical_map}
use learning_osdev.Paging.Physical.Map.{
  IsPhysicalMap, setup_physical_map_lem, setup_physical_map_passes,
}
use learning_osdev.Paging.Physical.Example as Example

abbrev boot : Paging
boot = Example.boot (λ _. 0) (λ a le. refl)

setup_physical_map_lem_example :
    IsPhysicalMap (4 * 2 ^ 30) boot (setup_physical_map (4 * 2 ^ 30) boot)
setup_physical_map_lem_example =
    setup_physical_map_lem boot (Example.boot-IsTables (λ _. 0) (λ a le. refl)) (omega arith)
      (4 * 2 ^ 30) (omega arith)

setup_physical_map_passes_example :
    (after : Paging) × (setup_physical_map (4 * 2 ^ 30) boot ≡ some (0, after))
setup_physical_map_passes_example =
    setup_physical_map_passes boot (Example.boot-IsTables (λ _. 0) (λ a le. refl)) (omega arith)
      (4 * 2 ^ 30) (omega arith) (omega arith) (Example.boot-IsIdentity (λ _. 0) (λ a le. refl))
