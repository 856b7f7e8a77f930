-- ===== src/Tests/Guides.antt =====
-- Runs of Guide's scan.
use box_kernel.Guide.{Guide, guide_scan_and_route}
use box_kernel.Tests.Data.{guide}

abbrev scanned : Guide
scanned =
    guide_scan_and_route (guide_scan_and_route (guide_scan_and_route (guide_scan_and_route guide)))
