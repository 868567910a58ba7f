-- ===== src/Histogram.antt =====
-- utils/histogram/chrono_axes.hpp: `readable_time`, `dump` and the axes.
pub mod Time
pub mod Dump
pub mod Widths
pub mod Table
pub mod Exact
pub mod Axes
pub mod Same
pub mod Tests
